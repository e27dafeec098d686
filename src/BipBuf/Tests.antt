-- ===== src/BipBuf/Tests.antt =====
-- The theorems about the receive buffer at concrete buffers.
use netsystem.Base.{
  ℕ, ◌-◌, ◌≡◌, refl, inl, inr, some, List, [], ◌∷◌, ◌++◌, length, take, replicate, length-replicate,
  ltb, if◌then◌else◌, arith,
}
use netsystem.BipBuf.{
  BipBuf, get_reservation_size, reserve, commit, store, force_reserve, place_region_a,
}
use netsystem.BipBuf.Inv.{IsValid, contents}
use netsystem.BipBuf.Place.{Places, place_region_a-Places}
use netsystem.BipBuf.Refine.{Grants, reserve-Grants, commit-store}
use netsystem.BipBuf.Stream.{Op, incoming, consume, run, run_queue, IsIdle, run_refines}
use netsystem.BipBuf.Grow.{force_reserve-Grants, live_after}

abbrev zeros : ℕ → List ℕ
zeros n = replicate n 0

zeros_sized : (n : ℕ) → length (zeros n) ≡ n
zeros_sized n = length-replicate n 0

-- capacity 4, the bytes 14, 15, 16 committed, nothing reserved
abbrev held : BipBuf
held = record {
  buffer = 11 ∷ 12 ∷ 13 ∷ 14 ∷ 15 ∷ 16 ∷ 17 ∷ 18 ∷ [];
  available_capacity = 4;
  committed_sum = 6;
  a_start = 3;
  a_end = 6;
  r_start = 0;
  r_end = 0;
}

held-IsValid : IsValid held
held-IsValid = record {
  block = refl;
  small = omega arith;
  ordered = omega arith;
  inside = omega arith;
  fits = omega arith;
  reserved = inl (refl, refl);
}

held_idle : get_reservation_size held ≡ 0
unfolding get_reservation_size
held_idle = refl

held-IsIdle : IsIdle 4 held
held-IsIdle = record { valid = held-IsValid; idle = held_idle; capacity = refl }

-- the same with one byte reserved
abbrev pending : BipBuf
pending = record held { r_start = 6; r_end = 7 }

pending-IsValid : IsValid pending
pending-IsValid = record {
  block = refl;
  small = omega arith;
  ordered = omega arith;
  inside = omega arith;
  fits = omega arith;
  reserved = inr (refl, omega arith, omega arith, omega arith);
}

pending_size : get_reservation_size pending ≡ 1
unfolding get_reservation_size
pending_size = refl

-- four bytes committed, none free
abbrev full : BipBuf
full = record held { a_end = 7 }

full-IsValid : IsValid full
full-IsValid = record {
  block = refl;
  small = omega arith;
  ordered = omega arith;
  inside = omega arith;
  fits = omega arith;
  reserved = inl (refl, refl);
}

abbrev history : List Op
history = consume 1 ∷ incoming (21 ∷ 22 ∷ 23 ∷ []) ∷ consume 2 ∷ incoming (24 ∷ []) ∷ []

run_refines_example :
    (bb' : BipBuf) × (run held history ≡ some bb')
    × IsIdle 4 bb'
    × (contents bb' ≡ run_queue 4 (contents held) history)
run_refines_example = run_refines history held-IsIdle

force_reserve-Grants_example :
    (bb' : BipBuf) × (force_reserve zeros 2 held 5
      ≡ some (
        some bb'.r_start,
        (if ltb (held.available_capacity - length (contents held)) 5 then live_after 2 held else 2),
        bb',
      ))
    × Grants held 5 bb'
force_reserve-Grants_example =
    force_reserve-Grants zeros zeros_sized 2 5 held-IsValid held_idle (omega arith) (omega arith)
      (omega arith)

reserve-Grants_example :
    (bb' : BipBuf) × (reserve held
      ≡ some (some bb'.r_start, held.available_capacity - length (contents held), bb'))
    × Grants held (held.available_capacity - length (contents held)) bb'
    × (bb'.available_capacity ≡ held.available_capacity)
reserve-Grants_example = reserve-Grants held-IsValid held_idle (omega arith)

commit-store_example :
    let bb' = commit (store pending 6 (99 ∷ [])) 1 in
    IsValid bb' × (contents bb' ≡ contents pending ++ take 1 (99 ∷ []))
commit-store_example =
    commit-store (99 ∷ []) 1 pending-IsValid refl (omega (arith, pending_size))
      (omega (arith, pending_size)) (omega arith)

place_region_a-Places_example :
    (placed : BipBuf) × (place_region_a held 1 ≡ some placed) × Places held 1 placed
place_region_a-Places_example = place_region_a-Places 1 held-IsValid refl refl (omega arith)
