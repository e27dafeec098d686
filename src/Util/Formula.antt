-- ===== src/Util/Formula.antt =====
-- `split_simple_formula`: a comparison such as `level >= 10` into its two sides and its operator. Each
-- side has a buffer of 64 bytes. A read in front of the text and a write behind a buffer are `none`.
pub mod Parse
use netsystem.Base.{
  ℕ, zero, suc, ◌+◌, ◌-◌, ◌≤◌, ◌<◌, ◌≡◌, refl, sym, ap, ◌∙◌, Bool, true, false, not, ◌&&◌, ◌||◌,
  List, [], ◌∷◌, ◌++◌, append-nil, append_assoc, if◌then◌else◌, ltb, ◌==◌, length, length-append,
  drop, arith, Bool-cases, inl, inr, ltb→lt, lt→ltb, Option, some, none, ◌>>=◌,
}
use netsystem.Util.Hex.{is_empty}

pub data FormulaTestFlag : Type 0 where
  formula_test_unknown formula_test_equal formula_test_not_equal formula_test_less_than
        formula_test_greater_than formula_test_less_or_eq formula_test_greater_or_eq :
      FormulaTestFlag

pub record SimpleFormula : Type 0 where
  pub left : List ℕ
  pub right : List ℕ
  pub test_flag : FormulaTestFlag

-- a blank or a tab
unfoldable pub is_blank : ℕ → Bool
is_blank c = c == 32 || c == 9

-- `>`, `<`, `=` and `!`
unfoldable pub is_operator : ℕ → Bool
is_operator c = c == 62 || c == 60 || c == 61 || c == 33

-- The blanks at the end, of which those up to the first byte stay.
unfoldable pub drop_blanks : List ℕ → List ℕ
drop_blanks [] = []
drop_blanks (c ∷ str) =
    let rest = drop_blanks str in if is_empty rest && is_blank c then [] else c ∷ rest

unfoldable pub trim_tail : List ℕ → List ℕ
trim_tail [] = []
trim_tail (c ∷ str) = c ∷ drop_blanks str

-- One byte more, unless it is a blank in front of all.
unfoldable pub collect : List ℕ → ℕ → List ℕ
collect side c = if not (is_empty side) || not (is_blank c) then side ++ (c ∷ []) else side

-- The first loop, with the bytes of the left side so far: the side, and the text from the operator on.
-- Without an operator, or with 63 bytes in front of it, `k` stays -1 and the second loop reads in front
-- of the text.
unfoldable pub left_from : List ℕ → List ℕ → Option (List ℕ × List ℕ)
left_from side [] = none
left_from side (c ∷ str) =
    let on = left_from (collect side c) str in
    if ltb (length side + 1) 64 && not (is_operator c)
    then on
    else (if is_operator c then some (trim_tail side, c ∷ str) else none)

-- Whether the byte behind the operator is `=`.
unfoldable pub next_is_eq : List ℕ → Bool
next_is_eq [] = false
next_is_eq (c ∷ str) = c == 61

unfoldable pub flag_of : ℕ → (eq : Bool) → FormulaTestFlag
flag_of c eq =
    if c == 62
    then (if eq then formula_test_greater_or_eq else formula_test_greater_than)
    else (if c == 60
        then (if eq then formula_test_less_or_eq else formula_test_less_than)
        else (if c == 33
            then (if eq then formula_test_not_equal else formula_test_unknown)
            else formula_test_equal))

-- The second loop.
unfoldable pub right_from : List ℕ → List ℕ → List ℕ
right_from side [] = side
right_from side (c ∷ str) = right_from (collect side c) str

unfoldable pub finish_formula : List ℕ → FormulaTestFlag → List ℕ → Option SimpleFormula
finish_formula left flag right =
    if ltb (length right) 64
    then some (record { left = left; right = trim_tail right; test_flag = flag })
    else none

unfoldable pub from_operator : List ℕ × List ℕ → Option SimpleFormula
from_operator (left, []) = none
from_operator (left, c ∷ str) =
    let eq = next_is_eq str in
    finish_formula left (flag_of c eq) (right_from [] (if eq then drop 1 str else str))

unfoldable pub split_simple_formula : List ℕ → Option SimpleFormula
split_simple_formula formula = left_from [] formula >>= from_operator
