-- ===== src/Util/Split.antt =====
-- `split` and `split2d`, which cut a text in place and give the addresses of its fields. A field is the
-- bytes between two separators, where the text holds no zero byte.
use netsystem.Base.{
  ℕ, ◌+◌, ◌≤◌, ◌<◌, ◌≡◌, refl, sym, ap, ◌∙◌, false, List, [], ◌∷◌, ◌++◌, append-nil, append_assoc,
  if◌then◌else◌, ltb, ◌==◌, length, min, ==_refl, arith, ltb→lt, lt→ltb, if-both,
}
use netsystem.Util.Hex.{is_empty}

-- The end of the loop: the part behind the last separator, if it holds a byte.
unfoldable pub last_field : List ℕ → List (List ℕ)
last_field part = if is_empty part then [] else part ∷ []

-- The loop, with the bytes since the last separator and the count of the fields so far.
unfoldable pub fields_from : (c av_max : ℕ) → List ℕ → List ℕ → ℕ → List (List ℕ)
fields_from c av_max [] part n = last_field part
fields_from c av_max (x ∷ str) part n =
    let cut = fields_from c av_max str [] (n + 1) in
    let on = fields_from c av_max str (part ++ (x ∷ [])) n in
    if ltb n av_max then (if x == c then part ∷ cut else on) else last_field part

unfoldable pub split : List ℕ → (av_max c : ℕ) → List (List ℕ)
split str av_max c = fields_from c av_max str [] 0

-- Each field is split in turn.
unfoldable split_each : List (List ℕ) → (c : ℕ) → List (List (List ℕ))
split_each [] c = []
split_each (field ∷ fields) c = split field 32 c ∷ split_each fields c

unfoldable split2d : List ℕ → (av_max c1 c2 : ℕ) → List (List (List ℕ))
split2d str av_max c1 c2 = split_each (split str (min av_max 256) c1) c2

-- There is room for the fields, behind the first `n`.
abbrev Fit : (av_max n : ℕ) → List (List ℕ) → Type 0
Fit av_max n fields = n + length fields ≤ av_max

last_field-Fit :
    (av_max n : ℕ) (part : List ℕ)
    → n ≤ av_max
    → (is_empty part ≡ false → n < av_max)
    → Fit av_max n (last_field part)
unfolding last_field is_empty
last_field-Fit av_max n [] h room = omega (arith, h)
last_field-Fit av_max n (y ∷ part) h room = omega (arith, room refl)

not_empty : ¬ (is_empty [] ≡ false)
unfolding is_empty
not_empty e = cc

fields_from-Fit :
    (c av_max : ℕ) (str part : List ℕ) (n : ℕ)
    → n ≤ av_max
    → (is_empty part ≡ false → n < av_max)
    → Fit av_max n (fields_from c av_max str part n)
unfolding fields_from
fields_from-Fit c av_max [] part n h room = last_field-Fit av_max n part h room
fields_from-Fit c av_max (x ∷ str) part n h room =
    if-both (Fit av_max n) (ltb n av_max)
      (λ fits.
        let below : n < av_max = ltb→lt n av_max fits in
        if-both (Fit av_max n) (x == c)
          (λ _. omega (
            arith,
            fields_from-Fit c av_max str [] (n + 1) (omega (arith, below))
                (λ e. absurd (not_empty e)),
          ))
          (λ _. fields_from-Fit c av_max str (part ++ (x ∷ [])) n h (λ _. below)))
      (λ _. last_field-Fit av_max n part h room)

-- A text is never split into more fields than there is room for, whatever its length.
length-split : (str : List ℕ) (av_max c : ℕ) → length (split str av_max c) ≤ av_max
unfolding split
length-split str av_max c =
    omega (arith, fields_from-Fit c av_max str [] 0 (omega arith) (λ e. absurd (not_empty e)))

-- A field without the separator.
unfoldable pub Avoids : ℕ → List ℕ → Type 0
Avoids c [] = Unit
Avoids c (x ∷ field) = ((x == c) ≡ false) × Avoids c field

unfoldable pub join : ℕ → List (List ℕ) → List ℕ
join c [] = []
join c (field ∷ []) = field
join c (field ∷ next ∷ fields) = field ++ (c ∷ join c (next ∷ fields))

-- No field holds the separator, and the last one holds a byte.
unfoldable pub AreFields : ℕ → List (List ℕ) → Type 0
AreFields c [] = Unit
AreFields c (field ∷ []) = Avoids c field × (is_empty field ≡ false)
AreFields c (field ∷ next ∷ fields) = Avoids c field × AreFields c (next ∷ fields)

fields_from-append :
    (c av_max : ℕ) (field rest part : List ℕ) (n : ℕ)
    → n < av_max
    → Avoids c field
    → fields_from c av_max (field ++ rest) part n ≡ fields_from c av_max rest (part ++ field) n
unfolding fields_from Avoids
fields_from-append c av_max [] rest part n h a =
    ap (λ p. fields_from c av_max rest p n) (sym (append-nil part))
fields_from-append c av_max (x ∷ field) rest part n h (apart, a) =
    rw (lt→ltb n av_max h, apart)
      (fields_from-append c av_max field rest (part ++ (x ∷ [])) n h a
        ∙ ap (λ p. fields_from c av_max rest p n) (append_assoc part (x ∷ []) field))

fields_from-join :
    (c av_max : ℕ) (fields : List (List ℕ)) (n : ℕ)
    → n + length fields ≤ av_max
    → AreFields c fields
    → fields_from c av_max (join c fields) [] n ≡ fields
unfolding fields_from join AreFields last_field
fields_from-join c av_max [] n h a = unfold is_empty in refl
fields_from-join c av_max (field ∷ []) n h (a, some_byte) =
    ap (λ str. fields_from c av_max str [] n) (sym (append-nil field))
    ∙ fields_from-append c av_max field [] [] n (omega arith) a
    ∙ rw some_byte refl
fields_from-join c av_max (field ∷ next ∷ fields) n h (a, more) =
    fields_from-append c av_max field (c ∷ join c (next ∷ fields)) [] n (omega arith) a
    ∙ rw (lt→ltb n av_max (omega arith), ==_refl c)
        (ap (λ others. field ∷ others)
          (fields_from-join c av_max (next ∷ fields) (n + 1) (omega arith) more))

-- Fields that are joined by a separator that none of them holds come back from splitting, if there is
-- room for all of them and the last one is not empty.
pub split-join :
    (c av_max : ℕ) (fields : List (List ℕ))
    → length fields ≤ av_max
    → AreFields c fields
    → split (join c fields) av_max c ≡ fields
unfolding split
split-join c av_max fields h a = fields_from-join c av_max fields 0 (omega (arith, h)) a
