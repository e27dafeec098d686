-- ===== src/Packet.antt =====
-- The framing of packets into pages (src/tcp/TcpInnerPacket.cpp; src/tcp/TcpOuterPacket.cpp is the
-- same code over another leading, which is the argument `fmt` here).
-- A function of the class takes the object and returns it anew. The packets that it hands to its
-- callback are collected in `got`, the oldest first. An `int` result below zero is an error code.
pub mod Page
pub mod Buffers
pub mod Post
pub mod Stream
pub mod Chunks
pub mod Feed
pub mod Safety
pub mod Decode
pub mod RoundTrip
pub mod Outer
mod Tests
use netsystem.Base.{
  ℕ, zero, suc, ◌+◌, ◌-◌, ◌*◌, ◌^◌, ◌%◌, min, Bool, true, false, ◌&&◌, Option, none, some, List, [],
  ◌∷◌, ◌++◌, length, get_or, slice, drop, take, ltb, leb, ◌==◌, if◌then◌else◌, ◌>>=◌,
}
use netsystem.BipBuf.{BipBuf, get_committed_size, get_capacity, get_contiguous_block, decommit}
use Page.{
  PageState, receive_leading, receive_body, skip, PageLeading, field_14, encode_leading,
  decode_leading, page_leading_size, page_size_max, Format,
}
use Buffers.{
  PacketBuffer, packet_buffer_alloc, packet_buffer_free, recv_capacity_hint, send_capacity_hint,
}

-- `CTcpInnerPacket`, with the two static free lists.
pub record Packet : Type 0 where
  pub state : PageState
  pub leading : PageLeading
  pub recv_buf : Option PacketBuffer
  pub send_buf : Option PacketBuffer
  pub recv_free : List PacketBuffer
  pub send_free : List PacketBuffer
  pub got : List (List ℕ)

-- `Clear`
unfoldable pub clear : Packet → Packet
clear p = record p {
  state = receive_leading;
  recv_buf = none;
  recv_free = elim p.recv_buf [ none ↦ p.recv_free | some b ↦ packet_buffer_free p.recv_free b ];
  send_buf = none;
  send_free = elim p.send_buf [ none ↦ p.send_free | some b ↦ packet_buffer_free p.send_free b ];
}

-- What `ConsumePacket` returns: 0, or an error `-n`.
pub data Code : Type 0 where
  ok : Code
  error : ℕ → Code

-- The test that a whole packet must pass: it has a name, and is long enough for leading and name.
unfoldable pub is_well_formed : Format → List ℕ → Bool
is_well_formed fmt packet =
    ltb 0 (get_or packet 0 0) && leb (fmt.leading_size + get_or packet 0 0) (length packet)

abbrev pub fits : PacketBuffer → List ℕ → Bool
fits b page = leb (length b.bytes + length page) b.cap_size

abbrev pub append_page : PacketBuffer → List ℕ → PacketBuffer
append_page b page = record b { bytes = b.bytes ++ page }

-- The buffer goes back to the free list.
pub drop_recv_buf : Packet → PacketBuffer → Packet
drop_recv_buf p b = record p { recv_buf = none; recv_free = packet_buffer_free p.recv_free b }

-- The page after the first one, with `b` the buffer of the packet so far.
pub consume_next_page : Format → Packet → List ℕ → PacketBuffer → Code × Packet
consume_next_page fmt p page b =
    let whole = b.bytes ++ page in
    if ltb 0 p.leading.page_end
    then (if fits b page
        then (if is_well_formed fmt whole
            then (ok, record (drop_recv_buf p (append_page b page)) { got = p.got ++ (whole ∷ []) })
            else (error 3, drop_recv_buf p (append_page b page)))
        else (error 4, drop_recv_buf p b))
    else (if fits b page
        then (ok, record p { recv_buf = some (append_page b page) })
        else (error 5, drop_recv_buf p b))

-- The first page of several: a new buffer takes the place of the old one.
pub consume_first_page : Format → Packet → List ℕ → Code × Packet
consume_first_page fmt p page =
    let (b, rest) = packet_buffer_alloc p.recv_free recv_capacity_hint fmt.recv_num_hint in
    let q = record p { recv_free = rest } in
    if fits b page
    then (ok, record q { recv_buf = some (append_page b page) })
    else (error 2, drop_recv_buf q b)

-- `ConsumePacket`
pub consume_packet : Format → Packet → List ℕ → Code × Packet
consume_packet fmt p page =
    if ltb 0 p.leading.page_start && ltb 0 p.leading.page_end
    then (if is_well_formed fmt page
        then (ok, record p { got = p.got ++ (page ∷ []) })
        else (error 1, p))
    else (if ltb 0 p.leading.page_start
        then consume_first_page fmt p page
        else elim p.recv_buf [ none ↦ (error 6, p) | some b ↦ consume_next_page fmt p page b ])

-- One round of the loop of `ConsumeFramePage`, with the bytes that it moves on by.
pub data Round : Type 0 where
  halt : ℕ → Packet → Round
  fail : ℕ → Packet → Round
  continue : ℕ → Packet → Round

-- A page leading `l` has been read, with `remains` bytes there from it on.
pub accept_leading : ℕ → Packet → PageLeading → ℕ → Round
accept_leading capacity p l remains =
    if 0 == l.data_size
    then fail 99 (record p { leading = l })
    else (if leb (page_leading_size + l.data_size) capacity
        then continue 0 (record p { leading = l; state = receive_body })
        else halt remains (record p {
          state = skip;
          leading = record l {
            data_size = field_14 (l.data_size + (2 ^ 14 - (remains - page_leading_size) % 2 ^ 14));
          };
        }))

pub leading_round : ℕ → Packet → List ℕ → Round
leading_round capacity p ptr =
    if ltb (length ptr) page_leading_size
    then halt 0 p
    else accept_leading capacity p (decode_leading ptr) (length ptr)

-- After `ConsumePacket` for a page of `wants` bytes.
pub accept_page : ℕ → Code × Packet → Round
accept_page wants (ok, q) = continue wants (record q { state = receive_leading })
accept_page wants (error n, q) = fail n q

pub body_round : Format → Packet → List ℕ → Round
body_round fmt p ptr =
    let wants = page_leading_size + p.leading.data_size in
    if ltb (length ptr) wants
    then halt 0 p
    else accept_page wants (consume_packet fmt p (slice page_leading_size p.leading.data_size ptr))

pub skip_round : Packet → List ℕ → Round
skip_round p ptr =
    let skipped = min (length ptr) p.leading.data_size in
    let left = p.leading.data_size - skipped in
    halt skipped (record p {
      leading = record (p.leading) { data_size = left };
      state = if left == 0 then receive_leading else skip;
    })

-- the `switch` over the state
pub round_by : PageState → Format → ℕ → Packet → List ℕ → Round
round_by receive_leading fmt capacity p ptr = leading_round capacity p ptr
round_by receive_body fmt capacity p ptr = body_round fmt p ptr
round_by skip fmt capacity p ptr = skip_round p ptr

pub round : Format → ℕ → Packet → List ℕ → Round
round fmt capacity p ptr = round_by p.state fmt capacity p ptr

-- What `ConsumeFramePage` returns: the bytes consumed, or an error `-n`.
pub data Outcome : Type 0 where
  consumed : ℕ → Outcome
  failed : ℕ → Outcome

-- The loop over the bytes from `ptr` on, `n` bytes consumed; `none` is the fuel used up.
pub loop : Format → ℕ → ℕ → Packet → List ℕ → ℕ → Option (Outcome × Packet)
loop fmt capacity zero p ptr n = none
loop fmt capacity (suc fuel) p ptr n = elim (round fmt capacity p ptr) [
  | halt k q ↦ some (consumed (n + k), q)
  | fail e q ↦ some (failed e, q)
  | continue k q ↦ loop fmt capacity fuel q (drop k ptr) (n + k)
]

-- `ConsumeFramePage`: two rounds for each byte, and one more, are enough.
pub consume_frame_page : Format → Packet → List ℕ → ℕ → Option (Outcome × Packet)
consume_frame_page fmt p bytes capacity = loop fmt capacity (2 * length bytes + 2) p bytes 0

-- `DecodeStream`, over the committed bytes of the receive buffer; a failure is the exception.
unfoldable pub decode_stream : Format → Packet → BipBuf → Option (Outcome × Packet × BipBuf)
decode_stream fmt p bb = do
  (outcome, q) ←
      consume_frame_page fmt p (slice (get_contiguous_block bb) (get_committed_size bb) bb.buffer)
        (get_capacity bb)
  some (elim outcome [
    | consumed n ↦ (consumed n, q, if ltb 0 n then (decommit bb n).1 else bb)
    | failed e ↦ (failed e, q, bb)
  ])
