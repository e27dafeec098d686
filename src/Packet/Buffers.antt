-- ===== src/Packet/Buffers.antt =====
-- The packet buffers and their free lists (src/tcp/TcpInnerPacket.cpp, `packet_buffer_alloc`,
-- `packet_buffer_free`, `packet_buffer_real_free`). A buffer is the bytes that it holds, `size` of
-- them, and its capacity; what stands behind them is never read.
pub mod Full
use netsystem.Base.{ℕ, zero, suc, ◌-◌, ◌*◌, List, [], ◌∷◌}
use netsystem.Packet.Page.{full_packet_max_size_hint, page_size_max}

pub record PacketBuffer : Type 0 where
  pub bytes : List ℕ
  pub cap_size : ℕ

-- sizeof(packet_buffer_t) with pointers of 8 bytes
abbrev pub buffer_header_size : ℕ
buffer_header_size = 32

abbrev pub recv_capacity_hint : ℕ
recv_capacity_hint = full_packet_max_size_hint

abbrev pub send_capacity_hint : ℕ
send_capacity_hint = page_size_max * 2

abbrev pub fresh_buffer : ℕ → PacketBuffer
fresh_buffer capacity_hint = record { bytes = []; cap_size = capacity_hint - buffer_header_size }

-- the loop that puts `num_hint` new buffers on the free list
pub refill : ℕ → ℕ → List PacketBuffer → List PacketBuffer
refill capacity_hint zero free_list = free_list
refill capacity_hint (suc num_hint) free_list =
    refill capacity_hint num_hint (fresh_buffer capacity_hint ∷ free_list)

-- The head of the free list, emptied. The source calls itself again on the empty list, which comes
-- up only for `num_hint` 0; its callers pass 1 and 64.
pub take_free : ℕ → List PacketBuffer → PacketBuffer × List PacketBuffer
take_free capacity_hint [] = (fresh_buffer capacity_hint, [])
take_free capacity_hint (entry ∷ rest) = (record entry { bytes = [] }, rest)

unfoldable pub packet_buffer_alloc : List PacketBuffer → ℕ → ℕ → PacketBuffer × List PacketBuffer
unfolding take_free refill
packet_buffer_alloc [] capacity_hint num_hint =
    take_free capacity_hint (refill capacity_hint num_hint [])
packet_buffer_alloc (entry ∷ rest) capacity_hint num_hint = take_free capacity_hint (entry ∷ rest)

abbrev pub packet_buffer_free : List PacketBuffer → PacketBuffer → List PacketBuffer
packet_buffer_free free_list entry = entry ∷ free_list

pub packet_buffer_real_free : List PacketBuffer → List PacketBuffer
packet_buffer_real_free [] = []
packet_buffer_real_free (tmp ∷ rest) = packet_buffer_real_free rest
