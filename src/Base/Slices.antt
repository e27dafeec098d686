-- ===== src/Base/Slices.antt =====
-- Slices of a block of memory, and writes into it.
use Prim.Native.Nat.{ℕ, ◌+◌, ◌≤◌}
use mathlib.Core.Path.{◌≡◌, sym, ap, ap₂, ◌∙◌}
use mathlib.Core.List.{List, ◌++◌}
use native.Mathlib.Omega.{arith}
use netsystem.Base.Lists.{
  length, take, drop, length-append, length-take, length-drop, take-append_le, take-append_length,
  drop-append_length, take-take, drop-take, take_add, drop-drop,
}

module _ {ℓ} {A : Type ℓ} where
  -- the `n` entries from index `at` on
  abbrev pub slice : ℕ → ℕ → List A → List A
  slice at n block = take n (drop at block)

  -- the block with `entries` written at index `at`
  unfoldable pub overwrite : List A → ℕ → List A → List A
  overwrite block at entries = take at block ++ (entries ++ drop (at + length entries) block)

  pub length-slice :
      (at n : ℕ) (block : List A) → at + n ≤ length block → length (slice at n block) ≡ n
  length-slice at n block h = omega (arith, length-take n (drop at block), length-drop at block)

  pub length-overwrite :
      (block : List A) (at : ℕ) (entries : List A)
      → at + length entries ≤ length block
      → length (overwrite block at entries) ≡ length block
  unfolding overwrite
  length-overwrite block at entries h = omega (
    arith,
    length-append (take at block) (entries ++ drop (at + length entries) block),
    length-append entries (drop (at + length entries) block),
    length-take at block,
    length-drop (at + length entries) block,
  )

  -- What a write leaves behind index `at`: the entries, and the old block behind them.
  pub drop-overwrite :
      (block : List A) (at : ℕ) (entries : List A)
      → at ≤ length block
      → drop at (overwrite block at entries) ≡ entries ++ drop (at + length entries) block
  unfolding overwrite
  drop-overwrite block at entries h =
      let front : length (take at block) ≡ at = omega (arith, length-take at block) in
      rw front at (drop-append_length (take at block) (entries ++ drop (at + length entries) block))

  -- What it leaves in front of `at`.
  pub take-overwrite :
      (block : List A) (at : ℕ) (entries : List A)
      → at ≤ length block
      → take at (overwrite block at entries) ≡ take at block
  unfolding overwrite
  take-overwrite block at entries h =
      let front : length (take at block) ≡ at = omega (arith, length-take at block) in
      rw front at (take-append_length (take at block) (entries ++ drop (at + length entries) block))

  -- A slice that ends at `at`, or before it, is not touched by a write at `at`.
  pub slice-overwrite_before :
      (block : List A) (at : ℕ) (entries : List A) (from n : ℕ)
      → from + n ≤ at
      → at ≤ length block
      → slice from n (overwrite block at entries) ≡ slice from n block
  slice-overwrite_before block at entries from n h k =
      sym (drop-take from n (overwrite block at entries))
      ∙ ap (drop from) (
          sym (take-take (from + n) at (overwrite block at entries) h)
          ∙ ap (take (from + n)) (take-overwrite block at entries k)
          ∙ take-take (from + n) at block h)
      ∙ drop-take from n block

  -- A slice that runs on for `n` entries into what was written behind it.
  pub slice-overwrite_extends :
      (block : List A) (from k n : ℕ) (entries : List A)
      → from + k ≤ length block
      → n ≤ length entries
      → slice from (k + n) (overwrite block (from + k) entries)
        ≡ slice from k block ++ take n entries
  slice-overwrite_extends block from k n entries h le =
      take_add k n (drop from (overwrite block (from + k) entries))
      ∙ ap₂ ◌++◌ (slice-overwrite_before block (from + k) entries from k (omega arith) h) (
          ap (take n) (drop-drop from k (overwrite block (from + k) entries))
          ∙ ap (take n) (drop-overwrite block (from + k) entries h)
          ∙ take-append_le n entries _ le)

  -- A slice that starts at the write.
  pub slice-overwrite_self :
      (block : List A) (at : ℕ) (entries : List A)
      → at ≤ length block
      → slice at (length entries) (overwrite block at entries) ≡ entries
  slice-overwrite_self block at entries h =
      ap (take (length entries)) (drop-overwrite block at entries h) ∙ take-append_length entries _

  -- A slice of a slice, from its entry `m` on.
  pub drop-slice :
      (from m n : ℕ) (block : List A) → drop m (slice from (m + n) block) ≡ slice (from + m) n block
  drop-slice from m n block = drop-take m n (drop from block) ∙ ap (take n) (drop-drop from m block)
