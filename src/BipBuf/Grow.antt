-- ===== src/BipBuf/Grow.antt =====
-- `bip_buf_force_reserve`: the capacity that it grows to, the bytes that it keeps, and the blocks
-- that it leaves allocated.
use netsystem.Base.{
  ℕ, ◌+◌, ◌-◌, ◌^◌, ◌≤◌, ◌<◌, ◌≡◌, refl, sym, ◌∙◌, ap, none, some, List, length, slice, ltb,
  overwrite, length-overwrite, slice-overwrite_self, arith, true, false, ◌==◌, Bool-cases, inl, inr,
  if◌then◌else◌, sub_size, sub_u32, add_size, le-bit_or, bit_or-lt-pow, ◌/◌, ◌%◌,
}
use native.Mathlib.Nat.{div-le_self, sub-zero, add-sub_cancel}
use netsystem.BipBuf.{
  BipBuf, smear, next_power_of_two, get_reservation_size, memcpy_between, grow, grown_capacity,
  force_reserve, set_reservation, place_region_a,
}
use netsystem.BipBuf.Inv.{IsValid, contents, length-contents, committed_size_lem}
use netsystem.BipBuf.Place.{Places, place_region_a-Places}
use netsystem.BipBuf.Refine.{Grants, IsReady, Places-IsReady, set_reservation-Grants, unreserved}

smear_bounds : (k n x : ℕ) → x < 2 ^ n → (x ≤ smear k x) × (smear k x < 2 ^ n)
smear_bounds k n x h = (
  le-bit_or x (x / 2 ^ k),
  bit_or-lt-pow n x (x / 2 ^ k) h (omega (arith, div-le_self x (2 ^ k))),
)

-- From 1 up to 2^31 the rounded number is no smaller than its argument, and is at most 2^31.
next_power_of_two_bounds :
    (x : ℕ) → 0 < x → x ≤ 2 ^ 31 → (x ≤ next_power_of_two x) × (next_power_of_two x ≤ 2 ^ 31)
unfolding next_power_of_two
next_power_of_two_bounds x pos le =
    let y : ℕ = sub_u32 x 1 in
    let (l1, u1) = smear_bounds 1 31 y (omega arith) in
    let (l2, u2) = smear_bounds 2 31 (smear 1 y) u1 in
    let (l4, u4) = smear_bounds 4 31 (smear 2 (smear 1 y)) u2 in
    let (l8, u8) = smear_bounds 8 31 (smear 4 (smear 2 (smear 1 y))) u4 in
    let (l16, u16) = smear_bounds 16 31 (smear 8 (smear 4 (smear 2 (smear 1 y)))) u8 in omega arith

memcpy_between_front :
    (to from : List ℕ) (src n : ℕ)
    → src + n ≤ length from
    → n ≤ length to
    → memcpy_between to 0 from src n ≡ some (overwrite to 0 (slice src n from))
unfolding memcpy_between
memcpy_between_front to from src n h k = ground arith

-- The number of live blocks after a growth: it rises where no byte was committed.
abbrev pub live_after : ℕ → BipBuf → ℕ
live_after live bb = if 0 == length (contents bb) then live + 1 else live

module _ (malloc : ℕ → List ℕ) (sized : (n : ℕ) → length (malloc n) ≡ n) where
  grown_capacity_bounds :
      (bb : BipBuf) (size : ℕ)
      → 0 < size
      → bb.available_capacity + size ≤ 2 ^ 31
      → let cap = grown_capacity malloc bb size in
        (bb.available_capacity + size ≤ cap) × (cap ≤ 2 ^ 31)
  unfolding grown_capacity
  grown_capacity_bounds bb size pos le =
      let same : add_size bb.available_capacity size % 2 ^ 32 ≡ bb.available_capacity + size =
        omega arith in
      rw same (next_power_of_two_bounds (bb.available_capacity + size) (omega arith) le)

  -- region A at the start of the new block
  abbrev regrown : BipBuf → ℕ → List ℕ → ℕ → BipBuf
  regrown bb size block held = record bb {
    available_capacity = grown_capacity malloc bb size;
    buffer = block;
    a_start = 0;
    a_end = held;
  }

  regrown-IsReady :
      {bb : BipBuf} (size : ℕ) (block : List ℕ) (held : ℕ)
      → IsValid bb
      → (bb.r_start ≡ 0) × (bb.r_end ≡ 0)
      → 0 < size
      → bb.available_capacity + size ≤ 2 ^ 31
      → (let cap = grown_capacity malloc bb size in length block ≡ cap + cap)
      → held ≡ bb.a_end - bb.a_start
      → slice 0 held block ≡ contents bb
      → IsReady bb size (regrown bb size block held)
  regrown-IsReady {bb} size block held v none_reserved pos le whole e kept =
      let bounds = grown_capacity_bounds bb size pos le in
      record {
        valid = ground (arith, bounds, e, v);
        same_bytes = ap (λ n. slice 0 n block) (sub-zero held) ∙ kept;
        same_sum = refl;
        room = omega (arith, bounds, e, v);
        fits = omega (arith, bounds, e, v);
      }

  module _ {bb : BipBuf} (live size : ℕ) (v : IsValid bb)
      (none_reserved : (bb.r_start ≡ 0) × (bb.r_end ≡ 0)) (pos : 0 < size)
      (le : bb.available_capacity + size ≤ 2 ^ 31) where
    capacity : ℕ
    capacity = grown_capacity malloc bb size

    block : List ℕ
    block = malloc (add_size capacity capacity)

    length-block : length block ≡ capacity + capacity
    unfolding block capacity
    length-block = sized _ ∙ omega (arith, grown_capacity_bounds bb size pos le)

    grow-IsReady :
        (grown : BipBuf) × (grow malloc live bb size ≡ some (live_after live bb, grown))
        × IsReady bb size grown
    unfolding grow block capacity
    grow-IsReady =
        let held = length-contents v in
        let e = committed_size_lem v in
        let ready = λ (b : List ℕ) (n : ℕ). regrown-IsReady size b n v none_reserved pos le in
        elim (Bool-cases (0 == (bb.a_end - bb.a_start))) [
          | inl none_held ↦
              let empty : bb.a_end - bb.a_start ≡ 0 = ground arith in
              (
                regrown bb size block 0,
                rw (held, e, none_held),
                ready block 0 length-block (sym empty) (rw empty),
              )
          | inr some_held ↦
              let in_new : bb.a_end - bb.a_start ≤ length block =
                omega (arith, length-block, grown_capacity_bounds bb size pos le, v) in
              (
                regrown bb size (overwrite block 0 (contents bb)) (bb.a_end - bb.a_start),
                rw (
                  held,
                  e,
                  some_held,
                  memcpy_between_front block bb.buffer bb.a_start (bb.a_end - bb.a_start)
                      (omega arith) in_new,
                  add-sub_cancel,
                ),
                ready (overwrite block 0 (contents bb)) (bb.a_end - bb.a_start)
                    (length-overwrite block 0 (contents bb) (omega (arith, held, in_new))
                      ∙ length-block)
                    refl
                    (ap (λ n. slice 0 n (overwrite block 0 (contents bb))) (sym held)
                      ∙ slice-overwrite_self block 0 (contents bb) (omega arith)),
              )
        ]

  module _ {bb : BipBuf} (live size : ℕ) (v : IsValid bb)
      (none_reserved : get_reservation_size bb ≡ 0)
      (room : length (contents bb) < bb.available_capacity) (pos : 0 < size) where
    -- What the call comes to: the reservation, and the number of live blocks.
    Forced : Type 0
    Forced =
        (bb' : BipBuf) × (force_reserve malloc live bb size
          ≡ some (
            some bb'.r_start,
            (if ltb (bb.available_capacity - length (contents bb)) size
                then live_after live bb
                else live),
            bb',
          ))
        × Grants bb size bb'

    free_lem :
        sub_size bb.available_capacity (bb.a_end - bb.a_start)
        ≡ bb.available_capacity - (bb.a_end - bb.a_start)
    free_lem = omega arith

    some_free : (0 == (bb.available_capacity - (bb.a_end - bb.a_start))) ≡ false
    some_free = ground (arith, length-contents v)

    some_size : (0 == size) ≡ false
    some_size = ground arith

    force_grown :
        ltb (bb.available_capacity - (bb.a_end - bb.a_start)) size ≡ true
        → ((grown : BipBuf) × (grow malloc live bb size ≡ some (live_after live bb, grown))
            × IsReady bb size grown)
        → Forced
    unfolding force_reserve Forced
    force_grown short (grown, runs, ready) = (
      set_reservation grown size,
      rw (
        none_reserved,
        some_size,
        committed_size_lem v,
        free_lem,
        some_free,
        short,
        runs,
        length-contents v,
        short,
      ),
      set_reservation-Grants size ready pos,
    )

    force_placed :
        ltb (bb.available_capacity - (bb.a_end - bb.a_start)) size ≡ false
        → ((placed : BipBuf) × (place_region_a bb size ≡ some placed) × Places bb size placed)
        → Forced
    unfolding force_reserve Forced
    force_placed enough (placed, runs, p) = (
      set_reservation placed size,
      rw (
        none_reserved,
        some_size,
        committed_size_lem v,
        free_lem,
        some_free,
        enough,
        runs,
        length-contents v,
        enough,
      ),
      set_reservation-Grants size (Places-IsReady p (ground (arith, length-contents v))) pos,
    )

  -- In a valid buffer with nothing reserved and room left, `bip_buf_force_reserve` reserves exactly
  -- `size` bytes, one at least, behind the committed ones, which it keeps in number and order, and
  -- returns the start of the reservation, wherever the capacity and `size` make up at most 2^31 and
  -- `malloc` gives a block of the size asked for. One block more is left allocated exactly where the
  -- buffer had to grow and no byte was committed.
  pub force_reserve-Grants :
      {bb : BipBuf} (live size : ℕ)
      → IsValid bb
      → get_reservation_size bb ≡ 0
      → length (contents bb) < bb.available_capacity
      → 0 < size
      → bb.available_capacity + size ≤ 2 ^ 31
      → (bb' : BipBuf) × (force_reserve malloc live bb size
          ≡ some (
            some bb'.r_start,
            (if ltb (bb.available_capacity - length (contents bb)) size
                then live_after live bb
                else live),
            bb',
          ))
        × Grants bb size bb'
  unfolding Forced
  force_reserve-Grants {bb} live size v none_reserved room pos le =
      elim (Bool-cases (ltb (bb.available_capacity - (bb.a_end - bb.a_start)) size)) [
        | inl short ↦
            force_grown live size v none_reserved room pos short
              (grow-IsReady live size v (unreserved v none_reserved) pos le)
        | inr enough ↦
            let (no_start, no_end) = unreserved v none_reserved in
            force_placed live size v none_reserved room pos enough
              (place_region_a-Places size v no_start no_end (ground (arith, length-contents v)))
      ]

-- A valid buffer with no room left is never grown: `bip_buf_force_reserve` returns NULL for it,
-- whatever size is asked.
force_reserve_full :
    (malloc : ℕ → List ℕ) {bb : BipBuf} (live size : ℕ)
    → IsValid bb
    → length (contents bb) ≡ bb.available_capacity
    → force_reserve malloc live bb size ≡ some (none, live, bb)
unfolding force_reserve
force_reserve_full malloc {bb} live size v full =
    let none_free : sub_size bb.available_capacity (bb.a_end - bb.a_start) ≡ 0 =
      omega (arith, length-contents v) in
    rw (committed_size_lem v, none_free) (ground arith)
