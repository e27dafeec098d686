-- ===== src/Packet/Buffers/Full.antt =====
-- The free list of receive buffers: every buffer on it has the full capacity.
use netsystem.Base.{ℕ, zero, suc, ◌-◌, ◌≡◌, refl, List, [], ◌∷◌}
use netsystem.Packet.Buffers.{
  PacketBuffer, packet_buffer_alloc, recv_capacity_hint, buffer_header_size, fresh_buffer, refill,
  take_free,
}

-- the bytes that a receive buffer holds at most
abbrev pub recv_size : ℕ
recv_size = recv_capacity_hint - buffer_header_size

-- Every buffer of the free list has the full capacity.
abbrev pub AllFull : List PacketBuffer → Type 0
AllFull [] = Unit {0}
AllFull (b ∷ bs) = (b.cap_size ≡ recv_size) × AllFull bs

refill-AllFull :
    (n : ℕ) (bs : List PacketBuffer) → AllFull bs → AllFull (refill recv_capacity_hint n bs)
unfolding refill
refill-AllFull zero bs h = h
refill-AllFull (suc n) bs h = refill-AllFull n (fresh_buffer recv_capacity_hint ∷ bs) (refl, h)

take_free-AllFull :
    (bs : List PacketBuffer)
    → AllFull bs
    → let (b, rest) = take_free recv_capacity_hint bs in
      (b.bytes ≡ []) × (b.cap_size ≡ recv_size) × AllFull rest
unfolding take_free
take_free-AllFull [] h = (refl, refl, tt)
take_free-AllFull (b ∷ bs) h = (refl, h.0, h.1)

-- An allocation gives an empty buffer of the full capacity, and leaves such a free list.
pub alloc-AllFull :
    (n : ℕ) (bs : List PacketBuffer)
    → AllFull bs
    → let (b, rest) = packet_buffer_alloc bs recv_capacity_hint n in
      (b.bytes ≡ []) × (b.cap_size ≡ recv_size) × AllFull rest
unfolding packet_buffer_alloc
alloc-AllFull n [] h = take_free-AllFull (refill recv_capacity_hint n []) (refill-AllFull n [] tt)
alloc-AllFull n (b ∷ bs) h = take_free-AllFull (b ∷ bs) h
