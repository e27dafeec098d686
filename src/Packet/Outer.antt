-- ===== src/Packet/Outer.antt =====
-- The operations of the two packet classes: src/tcp/TcpInnerPacket.cpp (`CTcpInnerPacket`) and
-- src/tcp/TcpOuterPacket.cpp (`CTcpOuterPacket`), whose functions are the same but for the leading.
use netsystem.Base.{ℕ, ◌≡◌, refl, Bool, Option, none, some, List, []}
use netsystem.BipBuf.{BipBuf}
use netsystem.Packet.Page.{receive_leading, Format, outer}
use netsystem.Packet.Buffers.{
  PacketBuffer, packet_buffer_alloc, packet_buffer_free, packet_buffer_real_free,
  recv_capacity_hint, send_capacity_hint,
}
use netsystem.Packet.{
  Packet, Code, Outcome, consume_packet, consume_frame_page, decode_stream, clear,
}
use netsystem.Packet.Post.{SendBuffer, Content, encode_stream, post}
use netsystem.Packet.Buffers.Full.{AllFull, alloc-AllFull}
use netsystem.Packet.Safety.{IsSafe, Bounded}
use netsystem.Packet.RoundTrip.{IsIdle}

-- The constructor, with the two static free lists.
pub create : List PacketBuffer → List PacketBuffer → Packet
create recv_free send_free = record {
  state = receive_leading;
  leading = record { page_start = 0; page_end = 0; data_size = 0 };
  recv_buf = none;
  send_buf = none;
  recv_free = recv_free;
  send_free = send_free;
  got = [];
}

-- `InitPacketBuffer`: a buffer is taken from each free list and put back.
init_packet_buffer :
    ℕ → List PacketBuffer × List PacketBuffer → List PacketBuffer × List PacketBuffer
init_packet_buffer recv_num_hint (recv_free, send_free) =
    let (recv, recv_rest) = packet_buffer_alloc recv_free recv_capacity_hint recv_num_hint in
    let (send, send_rest) = packet_buffer_alloc send_free send_capacity_hint 1 in
    (packet_buffer_free recv_rest recv, packet_buffer_free send_rest send)

-- `DestroyPacketBuffer`
destroy_packet_buffer :
    List PacketBuffer × List PacketBuffer → List PacketBuffer × List PacketBuffer
destroy_packet_buffer (recv_free, send_free) =
    (packet_buffer_real_free recv_free, packet_buffer_real_free send_free)

-- `CTcpOuterPacket::EncodeStream`, `DecodeStream`, `Post`, `ConsumeFramePage` and `ConsumePacket`
outer_encode_stream : (ℕ → ℕ) → Content → SendBuffer × ℕ
outer_encode_stream old c = encode_stream outer old c

outer_decode_stream : Packet → BipBuf → Option (Outcome × Packet × BipBuf)
outer_decode_stream p bb = decode_stream outer p bb

outer_post : (ℕ → ℕ) → (List ℕ → ℕ) → Bool → Packet → Content → Option (ℕ × List (List ℕ) × Packet)
outer_post old send_raw ready p c = post outer old send_raw ready p c

outer_consume_frame_page : Packet → List ℕ → ℕ → Option (Outcome × Packet)
outer_consume_frame_page p bytes capacity = consume_frame_page outer p bytes capacity

outer_consume_packet : Packet → List ℕ → Code × Packet
outer_consume_packet p page = consume_packet outer p page

-- A packet object made after `InitPacketBuffer` is between two packets, and its free receive buffers
-- have the full capacity, if those on the free list before had it.
create-IsIdle :
    (recv_num_hint : ℕ) (recv_free send_free : List PacketBuffer)
    → AllFull recv_free
    → let (recv, send) = init_packet_buffer recv_num_hint (recv_free, send_free) in
      IsIdle (create recv send)
unfolding init_packet_buffer create
create-IsIdle recv_num_hint recv_free send_free full =
    let (empty, whole, rest) = alloc-AllFull recv_num_hint recv_free full in
    record { between = refl; none_held = refl; buffers = (whole, rest) }

-- `Clear` leaves a packet object that is between two packets, whose free receive buffers have the
-- full capacity, with no packet lost that was handed over, provided that its receive buffers kept to
-- the full capacity and its packets were well formed before.
clear-IsIdle :
    (fmt : Format) (p : Packet) → IsSafe fmt p → IsIdle (clear p) × ((clear p).got ≡ p.got)
unfolding clear
clear-IsIdle fmt p s =
    (record { between = refl; none_held = refl; buffers = go p.recv_buf s.buffer }, refl)
  where
    go :
        (o : Option PacketBuffer)
        → Bounded o
        → AllFull (elim o [ none ↦ p.recv_free | some b ↦ packet_buffer_free p.recv_free b ])
    go none h = s.buffers
    go (some b) h = (h.0, s.buffers)
