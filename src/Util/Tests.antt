-- ===== src/Util/Tests.antt =====
-- The text helpers on short texts.
use netsystem.Base.{◌≡◌, refl, some, none, [], ◌∷◌, ◌++◌, ◌>>=◌, arith}
use netsystem.Util.Hex.{
  to_upper, is_digit, is_alpha, hex_char_to_int, bytes_to_hex_string, parts_from, part_to_byte,
  parts_to_bytes, hex_string_to_bytes, is_empty, AreBytes, hex_string_to_bytes-bytes_to_hex_string,
}
use netsystem.Util.Split.{split, join, Avoids, AreFields, split-join}
use netsystem.Util.Formula.{
  left_from, collect, formula_test_greater_or_eq, is_blank, is_operator, drop_blanks,
  split_simple_formula,
}
use netsystem.Util.Formula.Parse.{Blanks, NoOperators, IsSide, symbol, split_simple_formula-symbol}

-- 0x1F and 0xA0
bytes : AreBytes (31 ∷ 160 ∷ [])
unfolding AreBytes
bytes = (omega arith, (omega arith, tt))

hex_string_to_bytes-bytes_to_hex_string_example :
    (bytes_to_hex_string (31 ∷ 160 ∷ []) >>= hex_string_to_bytes) ≡ some (31 ∷ 160 ∷ [])
hex_string_to_bytes-bytes_to_hex_string_example =
    hex_string_to_bytes-bytes_to_hex_string (31 ∷ 160 ∷ []) bytes

-- `1a`: the small letter is read as 42, so the byte is 0x3A.
small_letter : hex_string_to_bytes (49 ∷ 97 ∷ []) ≡ some (58 ∷ [])
unfolding hex_string_to_bytes parts_from parts_to_bytes part_to_byte is_empty hex_char_to_int
    is_digit is_alpha to_upper
small_letter = refl

-- A text without an operator is read in front of its start.
no_operator : split_simple_formula (108 ∷ 118 ∷ []) ≡ none
unfolding split_simple_formula left_from collect is_empty is_operator is_blank
no_operator = refl

-- An empty part between two blanks is read behind its end.
two_blanks : hex_string_to_bytes (49 ∷ 70 ∷ 32 ∷ 32 ∷ 49 ∷ 70 ∷ []) ≡ none
unfolding hex_string_to_bytes parts_from parts_to_bytes part_to_byte is_empty
two_blanks = refl

two_fields : AreFields 44 ((97 ∷ []) ∷ (98 ∷ 99 ∷ []) ∷ [])
unfolding AreFields Avoids is_empty
two_fields = ((refl, tt), ((refl, (refl, tt)), refl))

split-join_example :
    split (join 44 ((97 ∷ []) ∷ (98 ∷ 99 ∷ []) ∷ [])) 2 44 ≡ (97 ∷ []) ∷ (98 ∷ 99 ∷ []) ∷ []
split-join_example = split-join 44 2 ((97 ∷ []) ∷ (98 ∷ 99 ∷ []) ∷ []) (omega arith) two_fields

-- ` lv >= 10`
left-IsSide : IsSide 108 (118 ∷ []) (32 ∷ []) (32 ∷ [])
unfolding is_blank drop_blanks is_empty Blanks
left-IsSide = record {
  starts = refl;
  ends = refl;
  before_blank = (refl, tt);
  after_blank = (refl, tt);
  short = omega arith;
}

right-IsSide : IsSide 49 (48 ∷ []) (32 ∷ []) []
unfolding is_blank drop_blanks is_empty Blanks
right-IsSide = record {
  starts = refl;
  ends = refl;
  before_blank = (refl, tt);
  after_blank = tt;
  short = omega arith;
}

no_operators : NoOperators (108 ∷ 118 ∷ [])
unfolding NoOperators is_operator
no_operators = (refl, (refl, tt))

split_simple_formula-symbol_example :
    split_simple_formula (
      (32 ∷ [])
      ++ (108 ∷ 118 ∷ [])
      ++ (32 ∷ [])
      ++ (symbol formula_test_greater_or_eq ++ ((32 ∷ []) ++ (49 ∷ 48 ∷ []) ++ [])))
    ≡ some (record {
      left = 108 ∷ 118 ∷ [];
      right = 49 ∷ 48 ∷ [];
      test_flag = formula_test_greater_or_eq;
    })
split_simple_formula-symbol_example =
    split_simple_formula-symbol 108 (118 ∷ []) (32 ∷ []) (32 ∷ []) formula_test_greater_or_eq 49
      (48 ∷ []) (32 ∷ []) [] left-IsSide no_operators right-IsSide refl
