-- ===== src/BipBuf/Search.antt =====
-- src/base/bip_buf.c: the search for a string (`fast_strstr`, `bip_buf_find_str`). Pointers into the
-- haystack are indices. `char_value` is the conversion of a `char` to `unsigned int`, which depends on
-- the sign of `char`.
pub mod Rolling
mod Tests
use netsystem.Base.{
  ℕ, zero, suc, ◌+◌, ◌-◌, ◌%◌, ◌^◌, Bool, true, false, ◌&&◌, Option, none, some, List, [], ◌∷◌,
  length, get_or, slice, drop, take, ltb, ◌==◌, if◌then◌else◌, add_u32, sub_u32,
}
use netsystem.BipBuf.{BipBuf, get_contiguous_block, get_committed_size}

-- `memchr`: the index of the first byte that is `c`
unfoldable pub memchr : List ℕ → ℕ → Option ℕ
memchr [] c = none
memchr (x ∷ xs) c =
    let rest = memchr xs c in
    if x == c then some 0 else elim rest [ none ↦ none | some i ↦ some (suc i) ]

-- `memcmp` as a test for equality
unfoldable pub same_bytes : List ℕ → List ℕ → Bool
same_bytes [] [] = true
same_bytes [] (y ∷ ys) = false
same_bytes (x ∷ xs) [] = false
same_bytes (x ∷ xs) (y ∷ ys) = (x == y) && same_bytes xs ys

-- What the first loop leaves: the bytes from `i_haystack` and from `i_needle` on, and its variables.
pub record Scan : Type 0 where
  pub i_haystack : List ℕ
  pub i_needle : List ℕ
  pub sums_diff : ℕ
  pub identical : Bool

module _ (char_value : ℕ → ℕ) where
  unfoldable pub scan : List ℕ → List ℕ → ℕ → Bool → Scan
  scan [] needle sums identical = record {
    i_haystack = [];
    i_needle = needle;
    sums_diff = sums;
    identical = identical;
  }
  scan (h ∷ hs) [] sums identical = record {
    i_haystack = h ∷ hs;
    i_needle = [];
    sums_diff = sums;
    identical = identical;
  }
  scan (h ∷ hs) (n ∷ ns) sums identical =
      scan hs ns (sub_u32 (add_u32 sums (char_value h)) (char_value n)) (identical && (h == n))

  -- The second loop, with the bytes from `sub_start` on, those from `i_haystack` on, and the index of
  -- `sub_start`.
  unfoldable pub slide : List ℕ → List ℕ → List ℕ → ℕ → ℕ → Option ℕ
  slide needle sub [] at sums = none
  slide needle sub (h ∷ hs) at sums =
      let sums' = add_u32 (sub_u32 sums (char_value (get_or sub 0 0))) (char_value h) in
      let sub' = drop 1 sub in
      let rest = slide needle sub' hs (suc at) sums' in
      let needle_len_1 = length needle - 1 in
      if (0 == sums')
        && (get_or needle 0 0 == get_or sub' 0 0)
        && same_bytes (take needle_len_1 sub') (take needle_len_1 needle)
      then some (suc at)
      else rest

  -- the bytes from the first match of the needle's first byte on
  unfoldable pub search_from : ℕ → List ℕ → ℕ → List ℕ → Option ℕ
  search_from needle_first needle at sub =
      let end = scan (drop 1 sub) needle (char_value (get_or sub 0 0) % 2 ^ 32) true in
      if ltb 0 (length end.i_needle)
      then none
      else (if end.identical
          then some at
          else slide (needle_first ∷ needle) sub end.i_haystack at end.sums_diff)

  unfoldable pub fast_strstr : List ℕ → List ℕ → Option ℕ
  fast_strstr haystack [] = some 0
  fast_strstr haystack (needle_first ∷ needle) = elim (memchr haystack needle_first) [
    | none ↦ none
    | some at ↦ search_from needle_first needle at (drop at haystack)
  ]

  -- The index is one into the block.
  pub find_str : BipBuf → List ℕ → Option ℕ
  find_str bb str =
      elim (fast_strstr (slice (get_contiguous_block bb) (get_committed_size bb) bb.buffer) str) [
        | none ↦ none
        | some i ↦ some (get_contiguous_block bb + i)
      ]
