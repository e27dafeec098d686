-- ===== src/Base/Faults.antt =====
-- Code that may run into undefined behaviour returns `Option`: `none` is the fault.
use mathlib.Core.Option.{Option, none, some}
use mathlib.Core.Path.{◌≡◌, refl}
use mathlib.Core.Bool.{Bool, true, false}
use netsystem.Base.Tests.{if◌then◌else◌}

infixl 5 ◌>>=◌
abbrev pub ◌>>=◌ {ℓ κ} : {A : Type ℓ} {B : Type κ} → Option A → (A → Option B) → Option B
none >>= f = none
some a >>= f = f a

pub >>=-eq-some {ℓ κ} :
    {A : Type ℓ} {B : Type κ} (m : Option A) (f : A → Option B) {b : B}
    → (m >>= f) ≡ some b
    → (a : A) × (m ≡ some a) × (f a ≡ some b)
>>=-eq-some none f h = cc
>>=-eq-some (some a) f h = (a, refl, h)

pub some_eq {ℓ} : {A : Type ℓ} {a b : A} → some a ≡ some b → a ≡ b
some_eq e = cc

-- A guard that was passed.
pub if_some {ℓ} :
    {A : Type ℓ} (b : Bool) {x : Option A} {y : A}
    → (if b then x else none) ≡ some y
    → (b ≡ true) × (x ≡ some y)
if_some true e = (refl, e)
if_some false e = cc
