-- ===== src/Base/Bits.antt =====
-- `bit_or` at variables: the law of its lowest digit, and bounds of its result.
use Prim.Native.Nat.{
  ℕ, zero, suc, ◌+◌, ◌*◌, ◌/◌, ◌%◌, ◌^◌, ◌≤◌, ◌<◌, max, bit_or, digits, bit_or-bitwise,
}
use mathlib.Core.Path.{◌≡◌, refl, sym, ap, ◌∙◌}
use native.Mathlib.Omega.{arith}
use native.Mathlib.Nat.{pow-suc, le_refl}

-- `bitwise` gives the recursion on digits its first argument as fuel; more of it changes nothing.
abbrev or_digits : ℕ → ℕ → ℕ → ℕ
or_digits fuel a b = digits (λ y. y) max fuel a b

or_digits-zero : (fuel b : ℕ) → or_digits fuel 0 b ≡ b
or_digits-zero zero b = refl
or_digits-zero (suc fuel) b = refl

or_digits_fuel : (m n a b : ℕ) → a ≤ m → a ≤ n → or_digits m a b ≡ or_digits n a b
or_digits_fuel m n zero b p q = or_digits-zero m b ∙ sym (or_digits-zero n b)
or_digits_fuel zero n (suc a) b p q = absurd (omega arith)
or_digits_fuel (suc m) zero (suc a) b p q = absurd (omega arith)
or_digits_fuel (suc m) (suc n) (suc a) b p q =
    ap (λ k. k * 2 + max (suc a % 2) (b % 2))
      (or_digits_fuel m n (suc a / 2) (b / 2) (omega arith) (omega arith))

zero-bit_or : (b : ℕ) → bit_or 0 b ≡ b
zero-bit_or b = bit_or-bitwise 0 b

bit_or_step : (a b : ℕ) → bit_or a b ≡ bit_or (a / 2) (b / 2) * 2 + max (a % 2) (b % 2)
bit_or_step zero b = omega (arith, zero-bit_or b, zero-bit_or (b / 2))
bit_or_step (suc a) b = omega (
  arith,
  bit_or-bitwise (suc a) b,
  bit_or-bitwise (suc a / 2) (b / 2),
  or_digits_fuel a (suc a / 2) (suc a / 2) (b / 2) (omega arith) (le_refl (suc a / 2)),
)

le-bit_or_fuel : (n a b : ℕ) → a ≤ n → a ≤ bit_or a b
le-bit_or_fuel n zero b h = omega arith
le-bit_or_fuel zero (suc a) b h = absurd (omega arith)
le-bit_or_fuel (suc n) (suc a) b h =
    omega (arith, bit_or_step (suc a) b, le-bit_or_fuel n (suc a / 2) (b / 2) (omega arith))

pub le-bit_or : (a b : ℕ) → a ≤ bit_or a b
le-bit_or a b = le-bit_or_fuel a a b (le_refl a)

pub bit_or-lt-pow : (k a b : ℕ) → a < 2 ^ k → b < 2 ^ k → bit_or a b < 2 ^ k
bit_or-lt-pow zero zero zero p q = omega (arith, zero-bit_or 0)
bit_or-lt-pow zero zero (suc b) p q = absurd (omega arith)
bit_or-lt-pow zero (suc a) b p q = absurd (omega arith)
bit_or-lt-pow (suc k) a b p q =
    let double = pow-suc 2 k in
    omega (
      arith,
      double,
      bit_or_step a b,
      bit_or-lt-pow k (a / 2) (b / 2) (omega (arith, double)) (omega (arith, double)),
    )
