-- ===== src/BipBuf/Search/Rolling.antt =====
-- What `fast_strstr` returns, by its rolling sum.
use mathlib.Core.Logic.{◌↔◌}
use netsystem.Base.{
  if_cases, ℕ, zero, suc, ◌+◌, ◌%◌, ◌^◌, ◌<◌, ◌≡◌, inl, inr, refl, sym, ◌∙◌, ap, Bool, true, false,
  ◌&&◌, Option, none, some, List, [], ◌∷◌, length, get_or, drop, take, ltb, ◌==◌, add_u32, sub_u32,
  arith, Option-cases, drop-drop,
}
use netsystem.BipBuf.Search.{memchr, scan, slide, search_from, fast_strstr}

-- A conjunction that holds, by its first part.
and_left : (a b : Bool) → (a && b) ≡ true → a ≡ true
and_left true b e = refl
and_left false b e = e

and_true : (b : Bool) → (b && true) ≡ b
and_true true = refl
and_true false = refl

drop_next :
    (n x : ℕ) (xs rest : List ℕ) → ◌≡◌ {A = List ℕ} (x ∷ rest) (drop n xs) → rest ≡ drop (suc n) xs
drop_next n x xs rest e =
    let next : drop (n + 1) xs ≡ drop (suc n) xs =
      let same : n + 1 ≡ suc n = omega arith in ap (λ k. drop k xs) same in
    ap (drop 1) e ∙ drop-drop n 1 xs ∙ next

module _ (char_value : ℕ → ℕ) (word : (c : ℕ) → char_value c < 2 ^ 32) where
  -- the sum of the characters
  abbrev pub total : List ℕ → ℕ
  total [] = 0
  total (x ∷ xs) = char_value x + total xs

  total-take :
      (m h : ℕ) (xs hs : List ℕ)
      → drop m xs ≡ h ∷ hs
      → total (take (suc m) xs) ≡ total (take m xs) + char_value h
  total-take zero h [] hs e = cc
  total-take zero h (x ∷ xs) hs e =
      let same : x ≡ h = ap (λ l. get_or l 0 0) e in omega (arith, ap char_value same)
  total-take (suc m) h [] hs e = cc
  total-take (suc m) h (x ∷ xs) hs e = omega (arith, total-take m h xs hs e)

  -- The sum that the loop keeps is that of the window less that of the needle behind its first byte.
  abbrev Rolls : ℕ → ℕ → ℕ → Type 0
  Rolls sums needle window = (sums + needle) % 2 ^ 32 ≡ window % 2 ^ 32

  Rolls-slide :
      (sums needle inner c h : ℕ)
      → c < 2 ^ 32
      → Rolls sums needle (c + inner)
      → Rolls (add_u32 (sub_u32 sums c) h) needle (inner + h)
  Rolls-slide sums needle inner c h small e = omega (arith, e)

  Rolls-scan :
      (sums s needle window h n : ℕ)
      → n < 2 ^ 32
      → Rolls s needle (sub_u32 (add_u32 sums h) n + window)
      → Rolls s (n + needle) (sums + (h + window))
  Rolls-scan sums s needle window h n small e = omega (arith, e)

  zero_of : (n : ℕ) → (0 == n) ≡ true → n ≡ 0
  zero_of n e = ground arith

  empty_of : (xs : List ℕ) → ltb 0 (length xs) ≡ false → xs ≡ []
  empty_of [] e = refl
  empty_of (x ∷ xs) e = absurd (ground arith)

  no_value : (a : ℕ) → ◌≡◌ {A = Option ℕ} none (some a) → ⊥
  no_value a e = cc

  some_eq : (a b : ℕ) → some a ≡ some b → a ≡ b
  some_eq a b e = cc

  not_rolling : (s f t : ℕ) → s ≡ 0 → 0 < f → f < 2 ^ 32 → Rolls s t (f + t) → ⊥
  not_rolling s f t zero_sum pos small rolls = omega (arith, rolls)

  -- the needle stands at index `at` of the haystack
  abbrev pub StandsAt : List ℕ → List ℕ → ℕ → Type 0
  StandsAt needle haystack at = take (length needle) (drop at haystack) ≡ needle

  -- The second loop never returns a place where the needle stands.
  slide_lem :
      (haystack : List ℕ) (first : ℕ) (needle sub hs : List ℕ) (at sums : ℕ) {found : ℕ}
      → 0 < char_value first
      → sub ≡ drop at haystack
      → hs ≡ drop (suc (length needle)) sub
      → Rolls sums (total needle) (total (take (suc (length needle)) sub))
      → slide char_value (first ∷ needle) sub hs at sums ≡ some found
      → ¬ StandsAt (first ∷ needle) haystack found
  unfolding slide
  slide_lem haystack first needle sub [] at sums pos here next rolls e = cc
  slide_lem haystack first needle [] (h ∷ hs) at sums pos here next rolls e = cc
  slide_lem haystack first needle (c ∷ sub) (h ∷ hs) at sums {found} pos here next rolls e =
      let m = length needle in
      let sums' : ℕ = add_u32 (sub_u32 sums (char_value c)) (char_value h) in
      let rolls' : Rolls sums' (total needle) (total (take (suc m) sub)) =
        rw (total-take m h sub hs (sym next)) (
          Rolls-slide sums (total needle) (total (take m sub)) (char_value c) (char_value h)
            (word c) rolls) in
      let here' = drop_next at c haystack sub here in
      elim (if_cases (((0 == sums') && (first == get_or sub 0 0)) && _) (some (suc at)) _ e) [
        | inl (hit, found_at) ↦ λ stands.
            let zero_sum : sums' ≡ 0 = zero_of sums' (
              and_left (0 == sums') _
                (and_left ((0 == sums') && (first == get_or sub 0 0)) _ hit)) in
            let window : take (suc m) sub ≡ first ∷ needle =
              ap (take (suc m))
                (here' ∙ ap (λ k. drop k haystack) (some_eq (suc at) found found_at))
              ∙ stands in
            not_rolling sums' (char_value first) (total needle) zero_sum pos (word first)
              (rolls' ∙ ap (λ w. total w % 2 ^ 32) window)
        | inr (miss, further) ↦
            slide_lem haystack first needle sub hs (suc at) sums' pos here'
              (drop_next m h sub hs next) rolls' further
      ]

  -- The first loop, where it comes to the end of the needle: the window's sum.
  scan_lem :
      (hs needle : List ℕ) (sums : ℕ) (identical : Bool)
      → (scan char_value hs needle sums identical).i_needle ≡ []
      → let end = scan char_value hs needle sums identical in
        (end.i_haystack ≡ drop (length needle) hs)
        × Rolls end.sums_diff (total needle) (sums + total (take (length needle) hs))
  unfolding scan
  scan_lem [] [] sums identical e = (refl, omega arith)
  scan_lem [] (n ∷ needle) sums identical e = cc
  scan_lem (h ∷ hs) [] sums identical e = (refl, omega arith)
  scan_lem (h ∷ hs) (n ∷ needle) sums identical e =
      let (rest, rolls) =
        scan_lem hs needle (sub_u32 (add_u32 sums (char_value h)) (char_value n))
          (identical && (h == n)) e in
      (
        rest,
        Rolls-scan sums _ (total needle) (total (take (length needle) hs)) (char_value h)
            (char_value n) (word n) rolls,
      )

  -- The needle is found identical where it stands.
  scan_complete :
      (hs needle : List ℕ) (sums : ℕ) (identical : Bool)
      → take (length needle) hs ≡ needle
      → let end = scan char_value hs needle sums identical in
        (end.i_needle ≡ []) × (end.identical ≡ identical)
  unfolding scan
  scan_complete [] [] sums identical e = (refl, refl)
  scan_complete [] (n ∷ needle) sums identical e = cc
  scan_complete (h ∷ hs) [] sums identical e = (refl, refl)
  scan_complete (h ∷ hs) (n ∷ needle) sums identical e =
      let head : h ≡ n = ap (λ l. get_or l 0 0) e in
      let same : (h == n) ≡ true = ground arith in
      let (all, kept) =
        scan_complete hs needle (sub_u32 (add_u32 sums (char_value h)) (char_value n))
          (identical && (h == n)) (ap (drop 1) e) in
      (all, kept ∙ ap (λ b. identical && b) same ∙ and_true identical)

  memchr_lem :
      (xs : List ℕ) (c : ℕ) {at : ℕ}
      → memchr xs c ≡ some at
      → (rest : List ℕ) × (drop at xs ≡ c ∷ rest)
  unfolding memchr
  memchr_lem [] c e = cc
  memchr_lem (x ∷ xs) c {at} e = elim (if_cases (x == c) (some 0) _ e) [
    | inl (same, here) ↦
        let equal : x ≡ c = ground arith in
        (xs, ap (λ k. drop k (x ∷ xs)) (sym (some_eq 0 at here)) ∙ ap (λ y. y ∷ xs) equal)
    | inr (other, later) ↦ elim (Option-cases (memchr xs c)) [
      | inl nowhere ↦ absurd (no_value at (rw nowhere at later))
      | inr (i, there) ↦
          let (rest, e') = memchr_lem xs c there in
          let next : some (suc i) ≡ some at = rw there at later in
          (rest, ap (λ k. drop k (x ∷ xs)) (sym (some_eq (suc i) at next)) ∙ e')
    ]
  ]

  search_lem :
      (haystack : List ℕ) (first : ℕ) (needle rest : List ℕ) (at found : ℕ)
      → 0 < char_value first
      → drop at haystack ≡ first ∷ rest
      → StandsAt (first ∷ needle) haystack found
      → (search_from char_value first needle at (first ∷ rest) ≡ some found) ↔ (at ≡ found)
  unfolding search_from
  search_lem haystack first needle rest at found pos here stands = (forth, back)
    where
      start : ℕ
      start = char_value first % 2 ^ 32

      forth : search_from char_value first needle at (first ∷ rest) ≡ some found → at ≡ found
      forth e =
          elim (if_cases (ltb 0 (length (scan char_value rest needle start true).i_needle)) none _
            e) [
              | inl (short, nothing) ↦ absurd (no_value found nothing)
              | inr (whole, e') ↦
                  let (next, rolls) = scan_lem rest needle start true (empty_of _ whole) in
                  elim (if_cases (scan char_value rest needle start true).identical (some at) _
                    e') [
                      | inl (same, e'') ↦ some_eq at found e''
                      | inr (other, e'') ↦ absurd (
                          slide_lem haystack first needle (first ∷ rest) _ at _ pos (sym here) next
                            (omega (arith, rolls)) e'' stands)
                    ]
            ]

      back : at ≡ found → search_from char_value first needle at (first ∷ rest) ≡ some found
      back e =
          let window : take (length needle) rest ≡ needle =
            ap (drop 1)
              (ap (take (suc (length needle))) (sym here ∙ ap (λ k. drop k haystack) e) ∙ stands) in
          let (all, same) = scan_complete rest needle start true window in
          rw (all, same) (ap some e)

  -- At a place where the needle stands, `fast_strstr` returns that place exactly if it is the first
  -- occurrence of the first byte of the needle. The first byte of the needle is one whose value is
  -- not 0, and a value of a `char` fits an `unsigned int`.
  pub fast_strstr_finds :
      (haystack : List ℕ) (first : ℕ) (needle : List ℕ) (found : ℕ)
      → 0 < char_value first
      → StandsAt (first ∷ needle) haystack found
      → (fast_strstr char_value haystack (first ∷ needle) ≡ some found)
        ↔ (memchr haystack first ≡ some found)
  unfolding fast_strstr
  fast_strstr_finds haystack first needle found pos stands = go (memchr haystack first) refl
    where
      go :
          (o : Option ℕ)
          → memchr haystack first ≡ o
          → ((elim o [
            | none ↦ none
            | some at ↦ search_from char_value first needle at (drop at haystack)
          ])
              ≡ some found)
            ↔ (o ≡ some found)
      go none e = (λ e'. e', λ e'. e')
      go (some at) there =
          let (rest, here) = memchr_lem haystack first there in
          let (forth, back) = search_lem haystack first needle rest at found pos here stands in
          rw here (λ e. ap some (forth e), λ e. back (some_eq at found e))
