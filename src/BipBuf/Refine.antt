-- ===== src/BipBuf/Refine.antt =====
-- A valid buffer behaves as the queue of its committed bytes.
use netsystem.Base.{
  ℕ, ◌+◌, ◌-◌, ◌^◌, ◌≤◌, ◌<◌, ◌≡◌, refl, sym, ◌∙◌, ap, ◌⊎◌, inl, inr, none, some, List, ◌++◌,
  length, slice, leb, take, drop, overwrite, slice-overwrite_extends, arith, false, ◌==◌,
  Bool-cases, sub_size, add_size, lt→ltb, drop-slice, drop_all, min, leb→le, length-take,
}
use native.Mathlib.Nat.{le_trans}
use netsystem.BipBuf.{
  BipBuf, get_reservation_size, place_region_a, set_reservation, reserve, commit, decommit, store,
}
use netsystem.BipBuf.Inv.{
  IsValid, contents, length-contents, committed_size_lem, reservation_size_lem, store-IsValid,
  commit-IsValid,
}
use netsystem.BipBuf.Place.{Places, place_region_a-Places}

-- `bb'` is `bb` with a reservation of `size` bytes behind the committed ones.
pub record Grants (bb : BipBuf) (size : ℕ) (bb' : BipBuf) : Type 0 where
  pub valid : IsValid bb'
  pub same_bytes : contents bb' ≡ contents bb
  pub same_sum : bb'.committed_sum ≡ bb.committed_sum
  pub behind : bb'.r_start ≡ bb'.a_end
  pub extent : bb'.r_end ≡ bb'.r_start + size

-- `ready` holds the bytes of `bb`, with room for `size` more behind them.
pub record IsReady (bb : BipBuf) (size : ℕ) (ready : BipBuf) : Type 0 where
  pub valid : IsValid ready
  pub same_bytes : contents ready ≡ contents bb
  pub same_sum : ready.committed_sum ≡ bb.committed_sum
  pub room : ready.a_end + size ≤ ready.available_capacity + ready.available_capacity
  pub fits : size + (ready.a_end - ready.a_start) ≤ ready.available_capacity

pub Places-IsReady :
    {bb placed : BipBuf} {size : ℕ}
    → Places bb size placed
    → size + (bb.a_end - bb.a_start) ≤ bb.available_capacity
    → IsReady bb size placed
Places-IsReady p fits = record {
  valid = p.valid;
  same_bytes = p.same_bytes;
  same_sum = p.same_sum;
  room = omega (arith, p.room, p.same_capacity);
  fits = omega (arith, p.same_size, p.same_capacity);
}

pub set_reservation-Grants :
    {bb ready : BipBuf} (size : ℕ)
    → IsReady bb size ready
    → 0 < size
    → Grants bb size (set_reservation ready size)
set_reservation-Grants {bb} {ready} size p pos = record {
  valid = ground (arith, p.valid);
  same_bytes = p.same_bytes;
  same_sum = p.same_sum;
  behind = refl;
  extent = ground (arith, p.valid);
}

pub unreserved :
    {bb : BipBuf} → IsValid bb → get_reservation_size bb ≡ 0 → (bb.r_start ≡ 0) × (bb.r_end ≡ 0)
unfolding get_reservation_size
unreserved {bb} v e = ground arith

reserve_placed :
    {bb : BipBuf} (size : ℕ)
    → IsValid bb
    → get_reservation_size bb ≡ 0
    → size ≡ bb.available_capacity - (bb.a_end - bb.a_start)
    → 0 < size
    → ((placed : BipBuf) × (place_region_a bb size ≡ some placed) × Places bb size placed)
    → (bb' : BipBuf) × (reserve bb ≡ some (some bb'.r_start, size, bb'))
      × Grants bb size bb'
      × (bb'.available_capacity ≡ bb.available_capacity)
unfolding reserve
reserve_placed {bb} size v none_reserved e pos (placed, runs, p) =
    let free : sub_size bb.available_capacity (bb.a_end - bb.a_start) ≡ size = omega arith in
    let some_free : (0 == size) ≡ false = ground arith in
    (
      set_reservation placed size,
      rw (none_reserved, committed_size_lem v, free, some_free, runs),
      set_reservation-Grants size (Places-IsReady p (omega arith)) pos,
      p.same_capacity,
    )

-- In a valid buffer with nothing reserved and room left, `bip_buf_reserve` reserves all of that room
-- behind the committed bytes, which it keeps in number and order, and returns the start of the
-- reservation. It never copies memory onto itself, and the buffer stays valid, at the same capacity.
pub reserve-Grants :
    {bb : BipBuf}
    → IsValid bb
    → get_reservation_size bb ≡ 0
    → length (contents bb) < bb.available_capacity
    → let size = bb.available_capacity - length (contents bb) in
      (bb' : BipBuf) × (reserve bb ≡ some (some bb'.r_start, size, bb'))
      × Grants bb size bb'
      × (bb'.available_capacity ≡ bb.available_capacity)
reserve-Grants {bb} v none_reserved room =
    let (no_start, no_end) = unreserved v none_reserved in
    let size = bb.available_capacity - (bb.a_end - bb.a_start) in
    rw (length-contents v) (
      reserve_placed size v none_reserved refl (omega (arith, length-contents v))
        (place_region_a-Places size v no_start no_end (omega (arith, length-contents v))))

-- While a reservation is out in a valid buffer, or with no room left, `bip_buf_reserve` returns NULL
-- and the size 0, and changes nothing.
pub reserve_refuses :
    {bb : BipBuf}
    → IsValid bb
    → (0 < get_reservation_size bb) ⊎ (length (contents bb) ≡ bb.available_capacity)
    → reserve bb ≡ some (none, 0, bb)
unfolding reserve
reserve_refuses {bb} v (inl pending) = rw (lt→ltb 0 (get_reservation_size bb) pending)
reserve_refuses {bb} v (inr full) =
    let none_free : sub_size bb.available_capacity (bb.a_end - bb.a_start) ≡ 0 =
      omega (arith, length-contents v) in
    rw (committed_size_lem v, none_free) (ground arith)

-- With `n` bytes of a reservation committed, region A reaches `n` bytes further.
commit-a_end :
    {bb : BipBuf} (n : ℕ)
    → IsValid bb
    → 0 < get_reservation_size bb
    → n ≤ get_reservation_size bb
    → (commit bb n).a_end ≡ bb.r_start + n
unfolding commit
commit-a_end {bb} n v reserved le = ground (arith, reservation_size_lem v)

commit-a_start : (n : ℕ) (bb : BipBuf) → (commit bb n).a_start ≡ bb.a_start
unfolding commit
commit-a_start n bb = refl

commit-buffer : (n : ℕ) (bb : BipBuf) → (commit bb n).buffer ≡ bb.buffer
unfolding commit
commit-buffer n bb = refl

contents_at :
    (bb : BipBuf) {start end : ℕ} {block : List ℕ}
    → bb.a_start ≡ start
    → bb.a_end ≡ end
    → bb.buffer ≡ block
    → contents bb ≡ slice start (end - start) block
contents_at bb p q r = cc

slice_grows :
    (block : List ℕ) (start end at n : ℕ) (bytes : List ℕ)
    → start ≤ end
    → end ≤ length block
    → at ≡ end
    → n ≤ length bytes
    → slice start (at + n - start) (overwrite block at bytes)
      ≡ slice start (end - start) block ++ take n bytes
slice_grows block start end at n bytes ordered inside e le =
    let here : at ≡ start + (end - start) = omega arith in
    let size : at + n - start ≡ end - start + n = omega arith in
    rw (size, here) (slice-overwrite_extends block start (end - start) n bytes (omega arith) le)

-- In a valid buffer with a reservation out that starts where the committed bytes end, storing bytes
-- that fit the reservation and committing the first `n` of them appends these `n` to the committed
-- bytes, and keeps the buffer valid.
pub commit-store :
    {bb : BipBuf} (bytes : List ℕ) (n : ℕ)
    → IsValid bb
    → bb.r_start ≡ bb.a_end
    → 0 < get_reservation_size bb
    → length bytes ≤ get_reservation_size bb
    → n ≤ length bytes
    → let bb' = commit (store bb bb.r_start bytes) n in
      IsValid bb' × (contents bb' ≡ contents bb ++ take n bytes)
unfolding store get_reservation_size
commit-store {bb} bytes n v behind reserved fits le =
    let size = reservation_size_lem v in
    let stored : IsValid (store bb bb.r_start bytes) =
      store-IsValid bb.r_start bytes v (ground (arith, v, size)) in
    (
      commit-IsValid n (ground (arith, v, size)) stored,
      contents_at (commit (store bb bb.r_start bytes) n)
            (commit-a_start n (store bb bb.r_start bytes))
            (commit-a_end n stored reserved (le_trans le fits))
            (commit-buffer n (store bb bb.r_start bytes))
          ∙ slice_grows bb.buffer bb.a_start bb.a_end bb.r_start n bytes v.ordered (omega arith)
              behind le,
    )

slice_shrinks :
    (block : List ℕ) (start end size released : ℕ)
    → start ≤ end
    → end < 2 ^ 64
    → released ≡ min size (end - start)
    → slice (add_size start released) (end - add_size start released) block
      ≡ drop size (slice start (end - start) block)
slice_shrinks block start end size released ordered small e =
    elim (Bool-cases (leb (end - start) size)) [
      | inl all ↦
          let none_left : end - add_size start released ≡ 0 = ground arith in
          rw none_left (
            sym (
              drop_all size (slice start (end - start) block) (
                omega (
                  arith,
                  leb→le (end - start) size all,
                  length-take (end - start) (drop start block),
                ))))
      | inr part ↦
          let next : add_size start released ≡ start + size = ground arith in
          let held : end - start ≡ size + (end - (start + size)) = ground arith in
          rw (next, held) (sym (drop-slice start size (end - (start + size)) block))
    ]

-- In a valid buffer `bip_buf_decommit` drops the oldest `size` bytes, or all of them if there are
-- fewer, and returns how many.
pub decommit_lem :
    {bb : BipBuf} (size : ℕ)
    → IsValid bb
    → let (released, bb') = decommit bb size in
      (released ≡ min size (length (contents bb))) × (contents bb' ≡ drop size (contents bb))
unfolding decommit
decommit_lem {bb} size v =
    let released : (decommit bb size).0 ≡ min size (bb.a_end - bb.a_start) =
      rw (committed_size_lem v) (ground arith) in
    (
      released ∙ ap (min size) (sym (length-contents v)),
      slice_shrinks bb.buffer bb.a_start bb.a_end size _ v.ordered (omega (arith, v)) released,
    )
