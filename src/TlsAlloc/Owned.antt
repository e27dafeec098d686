-- ===== src/TlsAlloc/Owned.antt =====
-- One free list: every item that is live is on it or with a caller.
use netsystem.Base.{
  ℕ, ◌+◌, ◌≤◌, ◌<◌, ◌≡◌, inl, inr, List, [], ◌∷◌, ◌==◌, arith, Bool-cases, count, count-cons,
  count-nil, count-remove, remove, unit, unit_self, unit_same, unit_other, ap, ◌∙◌,
}
use netsystem.TlsAlloc.{FreeList, pop, push, free_all}

-- Every live item stands once, either on the free list or with a caller, and no other item does.
abbrev pub Owned : FreeList → List ℕ → Type 0
Owned s held = (x : ℕ) → (count x s.items + count x held ≡ count x s.live) × (count x s.live ≤ 1)

pub pop-Owned :
    (fresh : ℕ) (items live held : List ℕ)
    → Owned (record { items = items; live = live }) held
    → count fresh live ≡ 0
    → let (item, s) = pop fresh items live in Owned s (item ∷ held)
unfolding pop
pop-Owned fresh [] live held own new x =
    (omega (arith, own x, count-cons x fresh held, count-cons x fresh live, count-nil x), at_most)
  where
    at_most : count x (fresh ∷ live) ≤ 1
    at_most = elim (Bool-cases (x == fresh)) [
      | inl same ↦
          let equal : x ≡ fresh = ground arith in
          let here : count x live ≡ 0 = ap (λ y. count y live) equal ∙ new in
          let once : unit x fresh ≡ 1 = unit_same x fresh same in
          omega (arith, here, once, count-cons x fresh live)
      | inr other ↦
          let none_here : unit x fresh ≡ 0 = unit_other x fresh other in
          omega (arith, own x, none_here, count-cons x fresh live)
    ]
pop-Owned fresh (item ∷ items) live held own new x =
    (omega (arith, own x, count-cons x item held, count-cons x item items), (own x).1)

pub push-Owned :
    (s : FreeList) (item : ℕ) (held : List ℕ)
    → Owned s held
    → 0 < count item held
    → Owned (push s item) (remove item held)
push-Owned s item held own has x =
    (omega (arith, own x, count-cons x item s.items, count-remove x item held has), (own x).1)

pub count-free_all :
    (items live : List ℕ)
    → ((x : ℕ) → count x items ≤ count x live)
    → (z : ℕ) → count z (free_all items live) + count z items ≡ count z live
unfolding free_all
count-free_all [] live le z = omega (arith, count-nil z)
count-free_all (item ∷ items) live le z =
    let here : 0 < count item live =
      omega (arith, le item, count-cons item item items, unit_self item) in
    let smaller : (x : ℕ) → count x items ≤ count x (remove item live) =
      λ x. omega (arith, le x, count-cons x item items, count-remove x item live here) in
    omega (
      arith,
      count-free_all items (remove item live) smaller z,
      count-cons z item items,
      count-remove z item live here,
    )

pub free_all-Owned :
    (s : FreeList) (held : List ℕ)
    → Owned s held
    → Owned (record { items = []; live = free_all s.items s.live }) held
free_all-Owned s held own x =
    let freed = count-free_all s.items s.live (λ z. omega (arith, own z)) x in
    (omega (arith, own x, freed, count-nil x), omega (arith, own x, freed))
