-- ===== src/Base/Maps.antt =====
-- Maps from numbers, as association lists: `std::map` and `std::unordered_map` with a key at most once.
use Prim.Native.Nat.{ℕ, ◌+◌}
use mathlib.Core.Path.{◌≡◌, refl, ap}
use mathlib.Core.Logic.{inl, inr}
use mathlib.Core.List.{List, [], ◌∷◌}
use mathlib.Core.Bool.{Bool, true, false}
use mathlib.Core.Option.{Option, none, some}
use native.Mathlib.Omega.{arith}
use netsystem.Base.Tests.{◌==◌, if◌then◌else◌, Bool-cases}

-- The first that is there.
abbrev pub or_else {ℓ} : {A : Type ℓ} → Option A → Option A → Option A
or_else none rest = rest
or_else (some a) rest = some a

module _ {ℓ} {A : Type ℓ} where
  abbrev pub keys : List (ℕ × A) → List ℕ
  keys [] = []
  keys ((k, v) ∷ m) = k ∷ keys m

  -- `find`
  unfoldable pub lookup : ℕ → List (ℕ × A) → Option A
  lookup k [] = none
  lookup k ((k', v) ∷ m) = let rest = lookup k m in if k == k' then some v else rest

  -- `m[k] = v`
  unfoldable pub put : ℕ → A → List (ℕ × A) → List (ℕ × A)
  put k v [] = (k, v) ∷ []
  put k v ((k', v') ∷ m) = let rest = put k v m in if k == k' then (k, v) ∷ m else (k', v') ∷ rest

  -- `m.erase(m.find(k))`
  unfoldable pub erase : ℕ → List (ℕ × A) → List (ℕ × A)
  erase k [] = []
  erase k ((k', v) ∷ m) = let rest = erase k m in if k == k' then m else (k', v) ∷ rest

  -- The loop that erases the entries that meet a test.
  unfoldable pub erase_if : (ℕ → A → Bool) → List (ℕ × A) → List (ℕ × A)
  erase_if test [] = []
  erase_if test ((k, v) ∷ m) =
      let rest = erase_if test m in if test k v then rest else (k, v) ∷ rest

  pub lookup-put :
      (k j : ℕ) (v : A) (m : List (ℕ × A))
      → lookup j (put k v m) ≡ (if j == k then some v else lookup j m)
  unfolding lookup put
  lookup-put k j v [] = refl
  lookup-put k j v ((k', v') ∷ m) = ground (arith, lookup-put k j v m)

  -- A measure of the values, summed up.
  unfoldable pub total : (A → ℕ) → List (ℕ × A) → ℕ
  total f [] = 0
  total f ((k, v) ∷ m) = f v + total f m

  pub total-nil : (f : A → ℕ) → total f [] ≡ 0
  unfolding total
  total-nil f = refl

  pub total-cons :
      (f : A → ℕ) (k : ℕ) (v : A) (m : List (ℕ × A)) → total f ((k, v) ∷ m) ≡ f v + total f m
  unfolding total
  total-cons f k v m = refl

  abbrev pub measure : (A → ℕ) → Option A → ℕ
  measure f none = 0
  measure f (some v) = f v

  -- The measure of the value of a key.
  abbrev pub at : (A → ℕ) → ℕ → List (ℕ × A) → ℕ
  at f k m = measure f (lookup k m)

  pub at-none : (f : A → ℕ) (k : ℕ) (m : List (ℕ × A)) → lookup k m ≡ none → at f k m ≡ 0
  at-none f k m e = rw e refl

  pub at-some :
      (f : A → ℕ) (k : ℕ) (m : List (ℕ × A)) {v : A} → lookup k m ≡ some v → at f k m ≡ f v
  at-some f k m e = rw e refl

  pub total-put :
      (f : A → ℕ) (k : ℕ) (v : A) (m : List (ℕ × A))
      → total f (put k v m) + at f k m ≡ total f m + f v
  unfolding total put lookup
  total-put f k v [] = omega arith
  total-put f k v ((k', v') ∷ m) = ground (arith, total-put f k v m)

  pub total-erase :
      (f : A → ℕ) (k : ℕ) (m : List (ℕ × A)) → total f (erase k m) + at f k m ≡ total f m
  unfolding total erase lookup
  total-erase f k [] = refl
  total-erase f k ((k', v') ∷ m) = ground (arith, total-erase f k m)

  pub erase-put : (k : ℕ) (v : A) (m : List (ℕ × A)) → lookup k m ≡ none → erase k (put k v m) ≡ m
  unfolding erase put lookup
  erase-put k v [] e = ground arith
  erase-put k v ((k', v') ∷ m) e = elim (Bool-cases (k == k')) [
    | inl same ↦ absurd (found same e)
    | inr other ↦ rw (other, other) (ap (◌∷◌ (k', v')) (erase-put k v m (rest other e)))
  ]
    where
      found : (k == k') ≡ true → (if k == k' then some v' else lookup k m) ≡ none → ⊥
      found same e = ground arith

      rest :
          (k == k') ≡ false → (if k == k' then some v' else lookup k m) ≡ none → lookup k m ≡ none
      rest other e = ground arith

  pub put-put : (k : ℕ) (v w : A) (m : List (ℕ × A)) → put k w (put k v m) ≡ put k w m
  unfolding put
  put-put k v w [] = ground arith
  put-put k v w ((k', v') ∷ m) = ground (arith, put-put k v w m)
