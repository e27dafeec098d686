-- ===== src/BipBuf/Place.antt =====
-- The check of region A: the `memcpy` that moves the region to the start of the block never runs
-- over its own source, and the bytes of the region and their order are kept.
use netsystem.Base.{
  ℕ, ◌+◌, ◌-◌, ◌≤◌, ◌≡◌, refl, ◌∙◌, ap, inl, inr, some, List, length, slice, ltb, overwrite,
  length-overwrite, length-slice, slice-overwrite_self, arith, ◌==◌, Bool-cases, sub_size, add_size,
  ltb→lt,
}
use netsystem.BipBuf.{BipBuf, memcpy_within, place_region_a}
use netsystem.BipBuf.Inv.{IsValid, contents, committed_size_lem}

memcpy_within_front :
    (block : List ℕ) (src n : ℕ)
    → src + n ≤ length block
    → n ≤ src
    → memcpy_within block 0 src n ≡ some (overwrite block 0 (slice src n block))
unfolding memcpy_within
memcpy_within_front block src n h k = ground arith

pub record Places (bb : BipBuf) (size : ℕ) (placed : BipBuf) : Type 0 where
  pub valid : IsValid placed
  pub same_capacity : placed.available_capacity ≡ bb.available_capacity
  pub same_bytes : contents placed ≡ contents bb
  pub same_size : placed.a_end - placed.a_start ≡ bb.a_end - bb.a_start
  pub room : placed.a_end + size ≤ bb.available_capacity + bb.available_capacity
  pub no_start : placed.r_start ≡ 0
  pub no_end : placed.r_end ≡ 0
  pub same_sum : placed.committed_sum ≡ bb.committed_sum

module _ {bb : BipBuf} (size : ℕ) (v : IsValid bb) (no_start : bb.r_start ≡ 0)
    (no_end : bb.r_end ≡ 0) (fits : size + (bb.a_end - bb.a_start) ≤ bb.available_capacity) where
  -- region A moved to the start of the block
  abbrev moved : BipBuf
  moved = record bb {
    buffer = overwrite bb.buffer 0 (contents bb);
    a_start = 0;
    a_end = bb.a_end - bb.a_start;
  }

  moved-Places : Places bb size moved
  moved-Places = record {
    valid = ground (arith, size_lem, length-overwrite bb.buffer 0 (contents bb));
    same_capacity = refl;
    same_bytes =
        ap (λ n. slice 0 n (overwrite bb.buffer 0 (contents bb))) (omega (arith, size_lem))
        ∙ slice-overwrite_self bb.buffer 0 (contents bb) (omega arith);
    same_size = omega arith;
    room = omega arith;
    no_start = no_start;
    no_end = no_end;
    same_sum = refl;
  }
    where
      size_lem : length (contents bb) ≡ bb.a_end - bb.a_start
      size_lem = omega (arith, length-slice bb.a_start (bb.a_end - bb.a_start) bb.buffer)

  -- an empty region A at the start of the block
  abbrev restarted : BipBuf
  restarted = record bb { a_start = 0; a_end = 0 }

  restarted-Places : bb.a_end - bb.a_start ≡ 0 → Places bb size restarted
  restarted-Places empty = record {
    valid = ground arith;
    same_capacity = refl;
    same_bytes = rw empty;
    same_size = omega arith;
    room = omega arith;
    no_start = no_start;
    no_end = no_end;
    same_sum = refl;
  }

  in_place-Places :
      bb.a_end + size ≤ bb.available_capacity + bb.available_capacity → Places bb size bb
  in_place-Places room = record {
    valid = v;
    same_capacity = refl;
    same_bytes = refl;
    same_size = refl;
    room = room;
    no_start = no_start;
    no_end = no_end;
    same_sum = refl;
  }

  -- In a valid buffer with nothing reserved and `size` bytes free, the check of region A in
  -- `bip_buf_reserve` never copies memory onto itself or out of the block; it keeps the committed
  -- bytes and their order, and leaves room for `size` bytes behind them.
  pub place_region_a-Places :
      (placed : BipBuf) × (place_region_a bb size ≡ some placed) × Places bb size placed
  unfolding place_region_a
  place_region_a-Places = elim (Bool-cases (bb.a_end - bb.a_start == 0)) [
    | inl empty ↦ (restarted, rw (committed_size_lem v, empty), restarted-Places (ground arith))
    | inr bytes ↦ elim (Bool-cases (ltb behind size)) [
      | inl short ↦ (
        moved,
        rw (
          committed_size_lem v,
          bytes,
          short,
          memcpy_within_front bb.buffer bb.a_start (bb.a_end - bb.a_start) (omega arith)
              (omega (arith, ltb→lt behind size short)),
        ),
        moved-Places,
      )
      | inr roomy ↦ (bb, rw (committed_size_lem v, bytes, roomy), in_place-Places (ground arith))
    ]
  ]
    where
      behind : ℕ
      behind = sub_size (add_size bb.available_capacity bb.available_capacity) bb.a_end
