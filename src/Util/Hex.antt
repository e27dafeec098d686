-- ===== src/Util/Hex.antt =====
-- `bytes_to_hex_string` and `hex_string_to_bytes`.
use netsystem.Base.{
  zero, suc, ℕ, ◌+◌, ◌-◌, ◌*◌, ◌/◌, ◌%◌, ◌^◌, ◌<◌, ◌≡◌, refl, sym, ap, ◌∙◌, Bool, true, false, ◌&&◌,
  ◌||◌, List, [], ◌∷◌, ◌++◌, append-nil, append_assoc, if◌then◌else◌, leb, ◌==◌, get_elem?, Option,
  some, none, ◌>>=◌, arith,
}

-- the table of `int_to_hex_char`
abbrev hex_chars : List ℕ
hex_chars = 48 ∷ 49 ∷ 50 ∷ 51 ∷ 52 ∷ 53 ∷ 54 ∷ 55 ∷ 56 ∷ 57 ∷ 65 ∷ 66 ∷ 67 ∷ 68 ∷ 69 ∷ 70 ∷ []

unfoldable pub int_to_hex_char : ℕ → Option ℕ
int_to_hex_char x = get_elem? hex_chars x

-- `toupper`, `isdigit` and `isalpha` of the C locale
unfoldable pub to_upper : ℕ → ℕ
to_upper c = if leb 97 c && leb c 122 then c - 32 else c

unfoldable pub is_digit : ℕ → Bool
is_digit c = leb 48 c && leb c 57

unfoldable pub is_alpha : ℕ → Bool
is_alpha c = leb 65 c && leb c 90 || leb 97 c && leb c 122

-- The letter is read in upper case for the test, and as it stands for the value.
unfoldable pub hex_char_to_int : ℕ → ℕ
hex_char_to_int hex =
    if is_digit (to_upper hex)
    then hex - 48
    else (if is_alpha (to_upper hex) then hex - 65 + 10 else 0)

-- The body of the loop, with the text up to it. No blank follows the last byte.
unfoldable pub append_byte : List ℕ → ℕ → (last : Bool) → Option (List ℕ)
append_byte str t last = int_to_hex_char (t / 16) >>= (λ a.
    int_to_hex_char (t % 16)
    >>= (λ b. some (str ++ (a ∷ b ∷ []) ++ (if last then [] else 32 ∷ []))))

unfoldable pub is_empty : List ℕ → Bool
is_empty [] = true
is_empty (_ ∷ _) = false

unfoldable pub hex_from : List ℕ → List ℕ → Option (List ℕ)
hex_from str [] = some str
hex_from str (t ∷ bytes) = append_byte str t (is_empty bytes) >>= (λ str'. hex_from str' bytes)

unfoldable pub bytes_to_hex_string : List ℕ → Option (List ℕ)
bytes_to_hex_string bytes = hex_from [] bytes

-- The parts between the blanks, with the bytes since the last blank. An empty last part is left out.
unfoldable pub parts_from : List ℕ → List ℕ → List (List ℕ)
parts_from part [] = if is_empty part then [] else part ∷ []
parts_from part (c ∷ str) =
    let rest = parts_from (if c == 32 then [] else part ++ (c ∷ [])) str in
    if c == 32 then part ∷ rest else rest

-- `vec[i][0]` and `vec[i][1]`. The byte at the length of a string is 0, and behind it is none.
unfoldable pub part_to_byte : List ℕ → Option ℕ
part_to_byte [] = none
part_to_byte (a ∷ []) = some ((hex_char_to_int a * 16 + hex_char_to_int 0) % 2 ^ 8)
part_to_byte (a ∷ b ∷ _) = some ((hex_char_to_int a * 16 + hex_char_to_int b) % 2 ^ 8)

unfoldable pub parts_to_bytes : List (List ℕ) → Option (List ℕ)
parts_to_bytes [] = some []
parts_to_bytes (part ∷ parts) =
    part_to_byte part >>= (λ byte. parts_to_bytes parts >>= (λ bytes. some (byte ∷ bytes)))

-- The bytes that are stored in `out`, which has to have room for them. Their count is the result.
unfoldable pub hex_string_to_bytes : List ℕ → Option (List ℕ)
hex_string_to_bytes str = parts_to_bytes (parts_from [] str)

-- All bytes are bytes.
unfoldable pub AreBytes : List ℕ → Type 0
AreBytes [] = Unit
AreBytes (t ∷ bytes) = (t < 2 ^ 8) × AreBytes bytes

-- A digit and back.
digit_lem :
    (x : ℕ)
    → x < 16
    → (c : ℕ) × (int_to_hex_char x ≡ some c) × (hex_char_to_int c ≡ x) × ((c == 32) ≡ false)
unfolding int_to_hex_char hex_char_to_int is_digit is_alpha to_upper
digit_lem zero h = (48, refl, refl, refl)
digit_lem (suc zero) h = (49, refl, refl, refl)
digit_lem (suc (suc zero)) h = (50, refl, refl, refl)
digit_lem (suc (suc (suc zero))) h = (51, refl, refl, refl)
digit_lem (suc (suc (suc (suc zero)))) h = (52, refl, refl, refl)
digit_lem (suc (suc (suc (suc (suc zero))))) h = (53, refl, refl, refl)
digit_lem (suc (suc (suc (suc (suc (suc zero)))))) h = (54, refl, refl, refl)
digit_lem (suc (suc (suc (suc (suc (suc (suc zero))))))) h = (55, refl, refl, refl)
digit_lem (suc (suc (suc (suc (suc (suc (suc (suc zero)))))))) h = (56, refl, refl, refl)
digit_lem (suc (suc (suc (suc (suc (suc (suc (suc (suc zero))))))))) h = (57, refl, refl, refl)
digit_lem (suc (suc (suc (suc (suc (suc (suc (suc (suc (suc zero)))))))))) h =
    (65, refl, refl, refl)
digit_lem (suc (suc (suc (suc (suc (suc (suc (suc (suc (suc (suc zero))))))))))) h =
    (66, refl, refl, refl)
digit_lem (suc (suc (suc (suc (suc (suc (suc (suc (suc (suc (suc (suc zero)))))))))))) h =
    (67, refl, refl, refl)
digit_lem (suc (suc (suc (suc (suc (suc (suc (suc (suc (suc (suc (suc (suc zero))))))))))))) h =
    (68, refl, refl, refl)
digit_lem (suc (suc (suc (suc (suc (suc (suc (suc (suc (suc (suc (suc (suc (suc zero))))))))))))))
      h =
    (69, refl, refl, refl)
digit_lem
      (suc (suc (suc (suc (suc (suc (suc (suc (suc (suc (suc (suc (suc (suc (suc zero)))))))))))))))
      h =
    (70, refl, refl, refl)
digit_lem
      (suc
        (suc (suc (suc (suc (suc (suc (suc (suc (suc (suc (suc (suc (suc (suc (suc n))))))))))))))))
      h =
    absurd (omega arith)

parts-two :
    (a b : ℕ) (str : List ℕ)
    → (a == 32) ≡ false
    → (b == 32) ≡ false
    → parts_from [] (a ∷ b ∷ str) ≡ parts_from (a ∷ b ∷ []) str
unfolding parts_from
parts-two a b str na nb = rw (na, nb) refl

-- The two digits of a byte.
record Digits (t : ℕ) : Type 0 where
  a : ℕ
  b : ℕ
  appends :
      (str : List ℕ) (last : Bool)
      → append_byte str t last ≡ some (str ++ (a ∷ b ∷ []) ++ (if last then [] else 32 ∷ []))
  reads : part_to_byte (a ∷ b ∷ []) ≡ some t
  splits : (str : List ℕ) → parts_from [] (a ∷ b ∷ str) ≡ parts_from (a ∷ b ∷ []) str

digits : (t : ℕ) → t < 2 ^ 8 → Digits t
unfolding append_byte part_to_byte
digits t h =
    let (a, ea, va, na) = digit_lem (t / 16) (omega arith) in
    let (b, eb, vb, nb) = digit_lem (t % 16) (omega arith) in
    record {
      a = a;
      b = b;
      appends = λ str last. rw (ea, eb) refl;
      reads = ap some (omega (arith, va, vb));
      splits = λ str. parts-two a b str na nb;
    }

parts_to_bytes-cons :
    (part : List ℕ) (parts : List (List ℕ)) (t : ℕ) (bytes : List ℕ)
    → part_to_byte part ≡ some t
    → parts_to_bytes parts ≡ some bytes
    → parts_to_bytes (part ∷ parts) ≡ some (t ∷ bytes)
unfolding parts_to_bytes
parts_to_bytes-cons part parts t bytes e es = rw (e, es) refl

hex_from_lem :
    (bytes : List ℕ)
    → AreBytes bytes
    → (str : List ℕ)
    → (s : List ℕ) × (hex_from str bytes ≡ some (str ++ s))
      × (parts_to_bytes (parts_from [] s) ≡ some bytes)
unfolding AreBytes hex_from parts_from parts_to_bytes is_empty
hex_from_lem [] bs str = ([], ap some (sym (append-nil str)), refl)
hex_from_lem (t ∷ []) (h, bs) str =
    let d = digits t h in
    (
      d.a ∷ d.b ∷ [],
      ap (λ m. m >>= (λ str'. hex_from str' [])) (d.appends str true)
          ∙ ap some (append-nil (str ++ (d.a ∷ d.b ∷ []))),
      ap parts_to_bytes (d.splits []) ∙ parts_to_bytes-cons (d.a ∷ d.b ∷ []) [] t [] d.reads refl,
    )
hex_from_lem (t ∷ u ∷ bytes) (h, bs) str =
    let d = digits t h in
    let (s, e, r) = hex_from_lem (u ∷ bytes) bs (str ++ (d.a ∷ d.b ∷ []) ++ (32 ∷ [])) in
    (
      d.a ∷ d.b ∷ 32 ∷ s,
      ap (λ m. m >>= (λ str'. hex_from str' (u ∷ bytes))) (d.appends str false)
          ∙ e
          ∙ ap some (
              append_assoc (str ++ (d.a ∷ d.b ∷ [])) (32 ∷ []) s
              ∙ append_assoc str (d.a ∷ d.b ∷ []) (32 ∷ s)),
      ap parts_to_bytes (d.splits (32 ∷ s))
          ∙ parts_to_bytes-cons (d.a ∷ d.b ∷ []) (parts_from [] s) t (u ∷ bytes) d.reads r,
    )

-- Bytes that are written as hexadecimal text and read back are the same bytes, however many there are,
-- and no read is out of bounds on the way.
pub hex_string_to_bytes-bytes_to_hex_string :
    (bytes : List ℕ)
    → AreBytes bytes
    → (bytes_to_hex_string bytes >>= hex_string_to_bytes) ≡ some bytes
unfolding bytes_to_hex_string hex_string_to_bytes
hex_string_to_bytes-bytes_to_hex_string bytes bs =
    let (s, e, r) = hex_from_lem bytes bs [] in ap (λ m. m >>= hex_string_to_bytes) e ∙ r
