-- ===== src/BipBuf/Inv.antt =====
-- The representation invariant of `bip_buf_t`, which every operation of bip_buf.c keeps.
use netsystem.Base.{
  ℕ, ◌+◌, ◌-◌, ◌*◌, ◌%◌, ◌^◌, ◌≤◌, ◌<◌, ◌≡◌, ◌⊎◌, List, length, slice, length-overwrite,
  length-slice, arith,
}
use netsystem.BipBuf.{
  BipBuf, get_committed_size, get_reservation_size, reset, commit, decommit, store, create,
}

-- Nothing is reserved, or a region that starts where region A ends.
abbrev Reserved : BipBuf → Type 0
Reserved bb =
    ((bb.r_start ≡ 0) × (bb.r_end ≡ 0))
    ⊎ ((bb.r_start ≡ bb.a_end)
        × (bb.r_start < bb.r_end)
        × (bb.r_end ≤ bb.available_capacity + bb.available_capacity)
        × (bb.r_end ≤ bb.a_start + bb.available_capacity))

pub record IsValid (bb : BipBuf) : Type 0 where
  pub block : length bb.buffer ≡ bb.available_capacity + bb.available_capacity
  pub small : bb.available_capacity < 2 ^ 63
  pub ordered : bb.a_start ≤ bb.a_end
  pub inside : bb.a_end ≤ bb.available_capacity + bb.available_capacity
  pub fits : bb.a_end ≤ bb.a_start + bb.available_capacity
  pub reserved : Reserved bb

-- No `size_t` difference of the accessors wraps.
pub committed_size_lem : {bb : BipBuf} → IsValid bb → get_committed_size bb ≡ bb.a_end - bb.a_start
unfolding get_committed_size
committed_size_lem v = omega arith

pub reservation_size_lem :
    {bb : BipBuf} → IsValid bb → get_reservation_size bb ≡ bb.r_end - bb.r_start
unfolding get_reservation_size
reservation_size_lem {bb} v = ground arith

committed_size-le : {bb : BipBuf} → IsValid bb → get_committed_size bb ≤ bb.available_capacity
unfolding get_committed_size
committed_size-le v = omega arith

reset-IsValid : {bb : BipBuf} → IsValid bb → IsValid (reset bb)
unfolding reset
reset-IsValid v = ground arith

-- A commit of any `size_t` keeps a valid buffer valid, with a reservation out or without.
pub commit-IsValid :
    {bb : BipBuf} (size : ℕ) → size < 2 ^ 64 → IsValid bb → IsValid (commit bb size)
unfolding commit get_reservation_size
commit-IsValid {bb} size small v = ground arith

pub decommit-IsValid : {bb : BipBuf} (size : ℕ) → IsValid bb → IsValid (decommit bb size).1
unfolding decommit get_committed_size
decommit-IsValid {bb} size v = ground arith

pub store-IsValid :
    {bb : BipBuf} (at : ℕ) (bytes : List ℕ)
    → IsValid bb
    → at + length bytes ≤ length bb.buffer
    → IsValid (store bb at bytes)
unfolding store
store-IsValid {bb} at bytes v h = ground (arith, length-overwrite bb.buffer at bytes)

create-IsValid :
    (malloc : ℕ → List ℕ) (live capacity : ℕ)
    → ((n : ℕ) → length (malloc n) ≡ n)
    → capacity < 2 ^ 63
    → IsValid (create malloc live capacity).1
unfolding create
create-IsValid malloc live capacity sized h = ground (arith, sized ((capacity * 2) % 2 ^ 64))

-- The committed bytes, oldest first.
abbrev pub contents : BipBuf → List ℕ
contents bb = slice bb.a_start (bb.a_end - bb.a_start) bb.buffer

pub length-contents : {bb : BipBuf} → IsValid bb → length (contents bb) ≡ bb.a_end - bb.a_start
length-contents {bb} v = omega (arith, length-slice bb.a_start (bb.a_end - bb.a_start) bb.buffer)
