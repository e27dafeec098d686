-- ===== src/Base/Entries.antt =====
-- Maps in which no key stands twice, and what holds of each entry of a map.
use Prim.Native.Nat.{ℕ, ◌≤◌}
use mathlib.Core.Path.{◌≡◌, refl, sym, ap, subst, ◌∙◌}
use mathlib.Core.Logic.{inl, inr}
use mathlib.Core.List.{List, [], ◌∷◌}
use mathlib.Core.Bool.{Bool, false}
use mathlib.Core.Option.{Option, none, some}
use native.Mathlib.Omega.{arith}
use netsystem.Base.Tests.{◌==◌, if◌then◌else◌, Bool-cases, ==_iff, if-both, if_cases}
use netsystem.Base.Counts.{count, count-cons, count-nil, unit_self, unit_same, unit_other}
use netsystem.Base.Faults.{some_eq}
use netsystem.Base.Maps.{keys, lookup, put, erase, erase_if}

module _ {ℓ} {A : Type ℓ} where
  -- how often a key stands in a map
  abbrev pub uses : ℕ → List (ℕ × A) → ℕ
  uses k m = count k (keys m)

  abbrev pub Unique : List (ℕ × A) → Type 0
  Unique m = (k : ℕ) → uses k m ≤ 1

  pub lookup-none_of_uses : (k : ℕ) (m : List (ℕ × A)) → uses k m ≡ 0 → lookup k m ≡ none
  unfolding lookup
  lookup-none_of_uses k [] h = refl
  lookup-none_of_uses k ((k', v) ∷ m) h =
      let cons = count-cons k k' (keys m) in
      elim (Bool-cases (k == k')) [
        | inl same ↦ absurd (omega (arith, h, cons, unit_same k k' same))
        | inr other ↦ rw other (lookup-none_of_uses k m (omega (arith, h, cons)))
      ]

  -- A put adds the key, or none.
  uses-put :
      (k : ℕ) (v : A) (m : List (ℕ × A)) (j : ℕ) → (j == k) ≡ false → uses j (put k v m) ≡ uses j m
  unfolding put
  uses-put k v [] j other = omega (arith, unit_other j k other, count-cons j k [], count-nil j)
  uses-put k v ((k', v') ∷ m) j other = elim (Bool-cases (k == k')) [
    | inl same ↦ let e : k ≡ k' = (==_iff k k').0 same in rw (same, e) refl
    | inr apart ↦ rw apart (
        omega (
          arith,
          uses-put k v m j other,
          count-cons j k' (keys m),
          count-cons j k' (keys (put k v m)),
        ))
  ]

  uses-put_self : (k : ℕ) (v : A) (m : List (ℕ × A)) → uses k m ≤ 1 → uses k (put k v m) ≡ 1
  unfolding put
  uses-put_self k v [] h = omega (arith, unit_self k, count-cons k k [], count-nil k)
  uses-put_self k v ((k', v') ∷ m) h = elim (Bool-cases (k == k')) [
    | inl same ↦
        let e : k ≡ k' = (==_iff k k').0 same in
        rw same (
          omega (
            arith,
            h,
            unit_self k,
            unit_same k k' same,
            count-cons k k (keys m),
            count-cons k k' (keys m),
          ))
    | inr apart ↦
        let none_here = unit_other k k' apart in
        let rest = uses-put_self k v m (omega (arith, h, count-cons k k' (keys m))) in
        rw apart (omega (arith, rest, none_here, count-cons k k' (keys (put k v m))))
  ]

  pub put-Unique : (k : ℕ) (v : A) (m : List (ℕ × A)) → Unique m → Unique (put k v m)
  put-Unique k v m u j = elim (Bool-cases (j == k)) [
    | inl same ↦ rw ((==_iff j k).0 same) (omega (arith, uses-put_self k v m (u k)))
    | inr other ↦ omega (arith, uses-put k v m j other, u j)
  ]

  uses-erase : (k : ℕ) (m : List (ℕ × A)) (j : ℕ) → uses j (erase k m) ≤ uses j m
  unfolding erase
  uses-erase k [] j = omega arith
  uses-erase k ((k', v) ∷ m) j =
      let rest = uses-erase k m j in
      let cons = count-cons j k' (keys m) in
      elim (Bool-cases (k == k')) [
        | inl same ↦ rw same (omega (arith, cons))
        | inr other ↦ rw other (omega (arith, rest, cons, count-cons j k' (keys (erase k m))))
      ]

  pub erase-Unique : (k : ℕ) (m : List (ℕ × A)) → Unique m → Unique (erase k m)
  erase-Unique k m u j = omega (arith, uses-erase k m j, u j)

  uses-erase_if :
      (test : ℕ → A → Bool) (m : List (ℕ × A)) (j : ℕ) → uses j (erase_if test m) ≤ uses j m
  unfolding erase_if
  uses-erase_if test [] j = omega arith
  uses-erase_if test ((k, v) ∷ m) j =
      let rest = uses-erase_if test m j in
      let cons = count-cons j k (keys m) in
      elim (Bool-cases (test k v)) [
        | inl gone ↦ rw gone (omega (arith, rest, cons))
        | inr stays ↦ rw stays (omega (arith, rest, cons, count-cons j k (keys (erase_if test m))))
      ]

  pub erase_if-Unique :
      (test : ℕ → A → Bool) (m : List (ℕ × A)) → Unique m → Unique (erase_if test m)
  erase_if-Unique test m u j = omega (arith, uses-erase_if test m j, u j)

  -- the rest of a map without a key that stands twice
  tail-Unique : (k : ℕ) (v : A) (m : List (ℕ × A)) → Unique ((k, v) ∷ m) → Unique m
  tail-Unique k v m u j = omega (arith, u j, count-cons j k (keys m))

  head_only : (k : ℕ) (v : A) (m : List (ℕ × A)) → Unique ((k, v) ∷ m) → lookup k m ≡ none
  head_only k v m u =
      lookup-none_of_uses k m (omega (arith, u k, unit_self k, count-cons k k (keys m)))

  pub lookup-erase :
      (k j : ℕ) (m : List (ℕ × A))
      → Unique m
      → lookup j (erase k m) ≡ (if j == k then none else lookup j m)
  unfolding lookup erase
  lookup-erase k j [] u = ground arith
  lookup-erase k j ((k', v) ∷ m) u =
      ground (arith, lookup-erase k j m (tail-Unique k' v m u), head_only k' v m u)

  -- What a test leaves of the value of a key.
  unfoldable pub keep_if : (A → Bool) → Option A → Option A
  keep_if test none = none
  keep_if test (some v) = if test v then none else some v

  pub lookup-erase_if :
      (test : ℕ → A → Bool) (j : ℕ) (m : List (ℕ × A))
      → Unique m
      → lookup j (erase_if test m) ≡ keep_if (test j) (lookup j m)
  unfolding lookup erase_if keep_if
  lookup-erase_if test j [] u = refl
  lookup-erase_if test j ((k, v) ∷ m) u =
      let rest = lookup-erase_if test j m (tail-Unique k v m u) in
      elim (Bool-cases (j == k)) [
        | inl same ↦
            let gone : lookup j m ≡ none =
              ap (λ i. lookup i m) ((==_iff j k).0 same) ∙ head_only k v m u in
            let alike : test j v ≡ test k v = ap (λ i. test i v) ((==_iff j k).0 same) in
            ground (arith, rest, gone, alike, same)
        | inr other ↦ ground (arith, rest, other)
      ]

module _ {ℓ κ} {A : Type ℓ} (P : ℕ → A → Type κ) where
  -- What holds of each entry.
  unfoldable pub Each : List (ℕ × A) → Type κ
  Each [] = Unit
  Each ((k, v) ∷ m) = P k v × Each m

  pub Each-put : (k : ℕ) (v : A) (m : List (ℕ × A)) → P k v → Each m → Each (put k v m)
  unfolding Each put
  Each-put k v [] h all = (h, tt)
  Each-put k v ((k', v') ∷ m) h all =
      if-both Each (k == k') (λ _. (h, all.1)) (λ _. (all.0, Each-put k v m h all.1))

  pub Each-erase : (k : ℕ) (m : List (ℕ × A)) → Each m → Each (erase k m)
  unfolding Each erase
  Each-erase k [] all = all
  Each-erase k ((k', v') ∷ m) all =
      if-both Each (k == k') (λ _. all.1) (λ _. (all.0, Each-erase k m all.1))

  pub Each-erase_if : (test : ℕ → A → Bool) (m : List (ℕ × A)) → Each m → Each (erase_if test m)
  unfolding Each erase_if
  Each-erase_if test [] all = all
  Each-erase_if test ((k, v) ∷ m) all =
      if-both Each (test k v) (λ _. Each-erase_if test m all.1)
        (λ _. (all.0, Each-erase_if test m all.1))

  pub Each-nil : Each []
  unfolding Each
  Each-nil = tt

  pub Each-lookup : (k : ℕ) (m : List (ℕ × A)) {v : A} → Each m → lookup k m ≡ some v → P k v
  unfolding Each lookup
  Each-lookup k [] all e = cc
  Each-lookup k ((k', v') ∷ m) {v} all e = elim (if_cases (k == k') (some v') (lookup k m) e) [
    | inl (same, is) ↦
        subst (λ i. P i v) (sym ((==_iff k k').0 same)) (subst (P k') (some_eq is) all.0)
    | inr (other, is) ↦ Each-lookup k m all.1 is
  ]
