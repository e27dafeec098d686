-- ===== src/BipBuf/Search/Tests.antt =====
-- The search at a concrete string.
use mathlib.Core.Logic.{◌↔◌}
use netsystem.Base.{
  ℕ, ◌+◌, ◌-◌, ◌%◌, ◌^◌, ◌<◌, ◌≡◌, refl, none, some, [], ◌∷◌, ltb, if◌then◌else◌, arith,
}
use netsystem.BipBuf.Search.{memchr, fast_strstr, scan, slide, search_from, same_bytes}
use netsystem.BipBuf.Search.Rolling.{fast_strstr_finds}

-- a `char` of 8 bits with a sign
abbrev signed_char : ℕ → ℕ
signed_char c = if ltb c 128 then c else (c + (2 ^ 32 - 256)) % 2 ^ 32

signed_char_word : (c : ℕ) → signed_char c < 2 ^ 32
signed_char_word c = ground arith

-- "ab" stands in "aab" at 1
fast_strstr_finds_example :
    (fast_strstr signed_char (97 ∷ 97 ∷ 98 ∷ []) (97 ∷ 98 ∷ []) ≡ some 1)
    ↔ (memchr (97 ∷ 97 ∷ 98 ∷ []) 97 ≡ some 1)
fast_strstr_finds_example =
    fast_strstr_finds signed_char signed_char_word (97 ∷ 97 ∷ 98 ∷ []) 97 (98 ∷ []) 1 (omega arith)
      refl

-- The string is not found.
missed : fast_strstr signed_char (97 ∷ 97 ∷ 98 ∷ []) (97 ∷ 98 ∷ []) ≡ none
unfolding fast_strstr memchr search_from scan slide same_bytes
missed = refl

-- "1b" does not stand in "1x11", and is found there at 2.
wrong : fast_strstr signed_char (49 ∷ 120 ∷ 49 ∷ 49 ∷ []) (49 ∷ 98 ∷ []) ≡ some 2
unfolding fast_strstr memchr search_from scan slide same_bytes
wrong = refl
