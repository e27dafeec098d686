-- ===== src/Util/Copy.antt =====
-- `util_strlcpy` and `util_strlcat`, which write into a buffer of a given size. A source is the bytes
-- before its zero. A write behind the end of the buffer is `none`.
use netsystem.Base.{
  ℕ, zero, suc, ◌+◌, ◌≤◌, ◌<◌, ◌≡◌, refl, ap, ◌∙◌, true, false, List, [], ◌∷◌, ◌++◌, if◌then◌else◌,
  ◌==◌, length, take, min, arith, Bool-cases, inl, inr, Option, some, none,
}

-- The rest of the buffer after `*dst = '\0'`.
unfoldable pub terminate : List ℕ → Option (List ℕ)
terminate [] = none
terminate (_ ∷ dst) = some (0 ∷ dst)

-- One byte in front of what is written behind it.
unfoldable pub behind : ℕ → Option (ℕ × List ℕ) → Option (ℕ × List ℕ)
behind x none = none
behind x (some (n, dst)) = some (n + 1, x ∷ dst)

unfoldable pub ended : Option (List ℕ) → Option (ℕ × List ℕ)
ended none = none
ended (some dst) = some (0, dst)

-- The copying loop, with the places that are left, and the zero behind it. The result counts the bytes
-- from here, and holds the buffer from here.
unfoldable pub copy : (left : ℕ) → List ℕ → List ℕ → Option (ℕ × List ℕ)
copy zero dst src = ended (terminate dst)
copy (suc left) dst [] = ended (terminate dst)
copy (suc left) [] (x ∷ src) = none
copy (suc left) (_ ∷ dst) (x ∷ src) = behind x (copy left dst src)

unfoldable util_strlcpy : List ℕ → List ℕ → (size : ℕ) → Option (ℕ × List ℕ)
util_strlcpy dst src zero = some (0, dst)
util_strlcpy dst src (suc size) = copy size dst src

-- The search for the end of the text in the buffer, with the places that are left, and what follows it.
-- If there is no zero in them nothing is written.
unfoldable pub append_from : (left : ℕ) → List ℕ → List ℕ → Option (ℕ × List ℕ)
append_from zero dst src = some (0, dst)
append_from (suc left) [] src = none
append_from (suc left) (x ∷ dst) src =
    let rest = append_from left dst src in if x == 0 then copy left (x ∷ dst) src else behind x rest

unfoldable pub util_strlcat : List ℕ → List ℕ → (size : ℕ) → Option (ℕ × List ℕ)
util_strlcat dst src zero = some (0, dst)
util_strlcat dst src (suc size) = append_from (suc size) dst src

-- The text in a buffer: the bytes before the first zero.
unfoldable pub text : List ℕ → List ℕ
text [] = []
text (x ∷ dst) = let rest = text dst in if x == 0 then [] else x ∷ rest

-- A source holds no zero.
unfoldable pub IsText : List ℕ → Type 0
IsText [] = Unit
IsText (x ∷ src) = ((x == 0) ≡ false) × IsText src

copy_lem :
    (left : ℕ) (dst src : List ℕ)
    → left < length dst
    → IsText src
    → (dst' : List ℕ) × (copy left dst src ≡ some (min left (length src), dst'))
      × (length dst' ≡ length dst)
      × (text dst' ≡ take left src)
unfolding copy terminate behind ended text IsText
copy_lem zero [] src h t = absurd (omega arith)
copy_lem zero (x ∷ dst) src h t = (0 ∷ dst, ap (λ n. some (n, 0 ∷ dst)) (omega arith), refl, refl)
copy_lem (suc left) [] src h t = absurd (omega arith)
copy_lem (suc left) (x ∷ dst) [] h t =
    (0 ∷ dst, ap (λ n. some (n, 0 ∷ dst)) (omega arith), refl, refl)
copy_lem (suc left) (_ ∷ dst) (x ∷ src) h (nz, t) =
    let (dst', e, same, is) = copy_lem left dst src (omega arith) t in
    (
      x ∷ dst',
      ap (behind x) e ∙ ap (λ n. some (n, x ∷ dst')) (omega arith),
      ap suc same,
      rw (nz, is) refl,
    )

-- What a buffer of `dst` bytes holds after the call: the count, and a text of as many bytes.
abbrev pub Holds : Option (ℕ × List ℕ) → ℕ → List ℕ → List ℕ → Type 0
Holds r n dst str =
    (dst' : List ℕ) × (r ≡ some (n, dst')) × (length dst' ≡ length dst) × (text dst' ≡ str)

text_end : (x : ℕ) (dst : List ℕ) → (x == 0) ≡ true → text (x ∷ dst) ≡ []
unfolding text
text_end x dst e = rw e refl

text_more : (x : ℕ) (dst : List ℕ) → (x == 0) ≡ false → text (x ∷ dst) ≡ x ∷ text dst
unfolding text
text_more x dst e = rw e refl

append_from_lem :
    (left : ℕ) (dst src : List ℕ)
    → suc left ≤ length dst
    → length (text dst) ≤ left
    → IsText src
    → Holds
        (append_from (suc left) dst src)
        (min left (length (text dst) + length src))
        dst
        (take left (text dst ++ src))
unfolding append_from behind
append_from_lem left [] src h short t = absurd (omega arith)
append_from_lem zero (x ∷ dst) src h short t = elim (Bool-cases (x == 0)) [
  | inl z ↦
      let (dst', e, same, is) = copy_lem zero (x ∷ dst) src (omega arith) t in
      rw (text_end x dst z, z) (dst', e ∙ ap (λ n. some (n, dst')) (omega arith), same, is)
  | inr nz ↦ absurd (omega (arith, ap length (text_more x dst nz)))
]
append_from_lem (suc left) (x ∷ dst) src h short t = elim (Bool-cases (x == 0)) [
  | inl z ↦
      let (dst', e, same, is) = copy_lem (suc left) (x ∷ dst) src (omega arith) t in
      rw (text_end x dst z, z) (dst', e ∙ ap (λ n. some (n, dst')) (omega arith), same, is)
  | inr nz ↦
      let (dst', e, same, is) =
        append_from_lem left dst src (omega arith) (omega (arith, ap length (text_more x dst nz)))
          t in
      rw (text_more x dst nz, nz)
        (
          x ∷ dst',
          ap (behind x) e ∙ ap (λ n. some (n, x ∷ dst')) (omega arith),
          ap suc same,
          text_more x dst' nz ∙ ap (◌∷◌ x) is,
        )
]

-- Copying into a buffer of at least `size` bytes writes the source, cut to what leaves room for the zero,
-- and nothing behind the buffer, and gives the number of its bytes.
util_strlcpy_lem :
    (dst src : List ℕ) (size : ℕ)
    → suc size ≤ length dst
    → IsText src
    → Holds (util_strlcpy dst src (suc size)) (min size (length src)) dst (take size src)
unfolding util_strlcpy
util_strlcpy_lem dst src size h t = copy_lem size dst src (omega arith) t

-- Appending to a text that ends within the first `size` bytes of its buffer gives that text followed by
-- the source, cut to what leaves room for the zero, and the number of its bytes. Nothing is written
-- behind the buffer.
pub util_strlcat_lem :
    (dst src : List ℕ) (size : ℕ)
    → suc size ≤ length dst
    → length (text dst) ≤ size
    → IsText src
    → Holds
        (util_strlcat dst src (suc size))
        (min size (length (text dst) + length src))
        dst
        (take size (text dst ++ src))
unfolding util_strlcat
util_strlcat_lem dst src size h short t = append_from_lem size dst src h short t
