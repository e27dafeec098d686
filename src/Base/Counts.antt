-- ===== src/Base/Counts.antt =====
-- How often a number stands in a list, and the list without its first occurrence.
use Prim.Native.Nat.{ℕ, ◌+◌, ◌<◌}
use mathlib.Core.Path.{◌≡◌, refl}
use mathlib.Core.Logic.{inl, inr}
use mathlib.Core.List.{List, [], ◌∷◌, ◌++◌}
use mathlib.Core.Bool.{true, false}
use native.Mathlib.Omega.{arith}
use netsystem.Base.Tests.{◌==◌, if◌then◌else◌, Bool-cases}

pub count : ℕ → List ℕ → ℕ
count x [] = 0
count x (y ∷ ys) = (if x == y then 1 else 0) + count x ys

pub remove : ℕ → List ℕ → List ℕ
remove x [] = []
remove x (y ∷ ys) = let rest = remove x ys in if x == y then ys else y ∷ rest

-- Equal numbers count once.
pub unit : ℕ → ℕ → ℕ
unit x y = if x == y then 1 else 0

pub count-cons : (x y : ℕ) (ys : List ℕ) → count x (y ∷ ys) ≡ unit x y + count x ys
unfolding count unit
count-cons x y ys = refl

pub count-nil : (x : ℕ) → count x [] ≡ 0
unfolding count
count-nil x = refl

pub unit_self : (x : ℕ) → unit x x ≡ 1
unfolding unit
unit_self x = ground arith

pub unit_same : (x y : ℕ) → (x == y) ≡ true → unit x y ≡ 1
unfolding unit
unit_same x y e = rw e refl

pub unit_other : (x y : ℕ) → (x == y) ≡ false → unit x y ≡ 0
unfolding unit
unit_other x y e = rw e refl

unit_eq : (z x y : ℕ) → (x == y) ≡ true → unit z x ≡ unit z y
unfolding unit
unit_eq z x y e = ground arith

pub count-remove :
    (z x : ℕ) (xs : List ℕ) → 0 < count x xs → unit z x + count z (remove x xs) ≡ count z xs
unfolding remove
count-remove z x [] h = absurd (omega (arith, count-nil x))
count-remove z x (y ∷ ys) h = elim (Bool-cases (x == y)) [
  | inl same ↦ rw same (omega (arith, unit_eq z x y same, count-cons z y ys))
  | inr other ↦
      let none_here : unit x y ≡ 0 = unit_other x y other in
      let rest = count-remove z x ys (omega (arith, h, count-cons x y ys, none_here)) in
      rw other (omega (arith, rest, count-cons z y ys, count-cons z y (remove x ys)))
]

count-append : (x : ℕ) (ys zs : List ℕ) → count x (ys ++ zs) ≡ count x ys + count x zs
count-append x [] zs = omega (arith, count-nil x)
count-append x (y ∷ ys) zs =
    omega (arith, count-cons x y (ys ++ zs), count-cons x y ys, count-append x ys zs)

pub count-snoc : (x y : ℕ) (ys : List ℕ) → count x (ys ++ (y ∷ [])) ≡ count x ys + unit x y
count-snoc x y ys = omega (arith, count-append x ys (y ∷ []), count-cons x y [], count-nil x)
