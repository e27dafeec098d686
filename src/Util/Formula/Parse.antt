-- ===== src/Util/Formula/Parse.antt =====
-- A comparison that is written and parsed is the same comparison.
use netsystem.Base.{
  ℕ, suc, ◌+◌, ◌<◌, ◌≡◌, refl, sym, ap, ◌∙◌, Bool, true, false, ◌&&◌, List, [], ◌∷◌, ◌++◌,
  append-nil, append_assoc, if◌then◌else◌, ltb, ◌==◌, length, length-append, arith, lt→ltb, some,
  ◌>>=◌,
}
use netsystem.Util.Hex.{is_empty}
use netsystem.Util.Formula.{
  FormulaTestFlag, formula_test_unknown, formula_test_equal, formula_test_not_equal,
  formula_test_less_than, formula_test_greater_than, formula_test_less_or_eq,
  formula_test_greater_or_eq, is_blank, is_operator, drop_blanks, trim_tail, collect, left_from,
  next_is_eq, flag_of, right_from, finish_formula, from_operator, split_simple_formula,
}

-- A list of blanks, and one without operators.
unfoldable pub Blanks : List ℕ → Type 0
Blanks [] = Unit
Blanks (c ∷ str) = (is_blank c ≡ true) × Blanks str

unfoldable pub NoOperators : List ℕ → Type 0
NoOperators [] = Unit
NoOperators (c ∷ str) = (is_operator c ≡ false) × NoOperators str

-- A side as it comes back, with the blanks around it in the text: it starts with no blank, does not end
-- with one, and fits its buffer with the blanks behind it.
pub record IsSide (x : ℕ) (others before after : List ℕ) : Type 0 where
  pub starts : is_blank x ≡ false
  pub ends : drop_blanks others ≡ others
  pub before_blank : Blanks before
  pub after_blank : Blanks after
  pub short : length others + length after < 63

-- The operators as they are written.
unfoldable pub operator_of : FormulaTestFlag → ℕ
operator_of formula_test_unknown = 33
operator_of formula_test_equal = 61
operator_of formula_test_not_equal = 33
operator_of formula_test_less_than = 60
operator_of formula_test_greater_than = 62
operator_of formula_test_less_or_eq = 60
operator_of formula_test_greater_or_eq = 62

unfoldable pub with_eq : FormulaTestFlag → Bool
with_eq formula_test_unknown = false
with_eq formula_test_equal = true
with_eq formula_test_not_equal = true
with_eq formula_test_less_than = false
with_eq formula_test_greater_than = false
with_eq formula_test_less_or_eq = true
with_eq formula_test_greater_or_eq = true

unfoldable pub symbol : FormulaTestFlag → List ℕ
symbol f = operator_of f ∷ (if with_eq f then 61 ∷ [] else [])

blank-not-operator : (c : ℕ) → is_blank c ≡ true → is_operator c ≡ false
unfolding is_blank is_operator
blank-not-operator c e = ground arith

drop_blanks-Blanks : (bs : List ℕ) → Blanks bs → drop_blanks bs ≡ []
unfolding Blanks drop_blanks is_empty
drop_blanks-Blanks [] b = refl
drop_blanks-Blanks (c ∷ bs) (b, rest) = rw (drop_blanks-Blanks bs rest, b) refl

drop_blanks-append : (str bs : List ℕ) → Blanks bs → drop_blanks (str ++ bs) ≡ drop_blanks str
unfolding drop_blanks
drop_blanks-append [] bs b = drop_blanks-Blanks bs b
drop_blanks-append (c ∷ str) bs b = rw (drop_blanks-append str bs b) refl

collect-blank : (c : ℕ) → is_blank c ≡ true → collect [] c ≡ []
unfolding collect is_empty
collect-blank c e = rw e refl

collect-first : (c : ℕ) → is_blank c ≡ false → collect [] c ≡ c ∷ []
unfolding collect is_empty
collect-first c e = rw e refl

right_from-skip : (bs str : List ℕ) → Blanks bs → right_from [] (bs ++ str) ≡ right_from [] str
unfolding right_from Blanks
right_from-skip [] str b = refl
right_from-skip (c ∷ bs) str (b, rest) =
    ap (λ s. right_from s (bs ++ str)) (collect-blank c b) ∙ right_from-skip bs str rest

right_from-keep : (x : ℕ) (side str : List ℕ) → right_from (x ∷ side) str ≡ x ∷ side ++ str
unfolding right_from collect is_empty
right_from-keep x side [] = sym (append-nil (x ∷ side))
right_from-keep x side (c ∷ str) =
    right_from-keep x (side ++ (c ∷ [])) str ∙ ap (◌∷◌ x) (append_assoc side (c ∷ []) str)

left_from-skip : (bs str : List ℕ) → Blanks bs → left_from [] (bs ++ str) ≡ left_from [] str
unfolding left_from Blanks
left_from-skip [] str b = refl
left_from-skip (c ∷ bs) str (b, rest) =
    rw (blank-not-operator c b, collect-blank c b) (left_from-skip bs str rest)

left_from-keep :
    (x : ℕ) (side str rest : List ℕ)
    → NoOperators str
    → length side + length str < 63
    → left_from (x ∷ side) (str ++ rest) ≡ left_from (x ∷ side ++ str) rest
unfolding left_from NoOperators collect is_empty
left_from-keep x side [] rest n h = ap (λ s. left_from s rest) (sym (append-nil (x ∷ side)))
left_from-keep x side (c ∷ str) rest (no_op, n) h =
    rw (lt→ltb (suc (length side) + 1) 64 (omega arith), no_op)
      (left_from-keep x (side ++ (c ∷ [])) str rest n (omega (arith, length-append side (c ∷ [])))
        ∙ ap (λ s. left_from (x ∷ s) rest) (append_assoc side (c ∷ []) str))

right_lem :
    (x : ℕ) (side bs bs' : List ℕ)
    → Blanks bs
    → Blanks bs'
    → is_blank x ≡ false
    → right_from [] (bs ++ (x ∷ side) ++ bs') ≡ x ∷ side ++ bs'
unfolding right_from
right_lem x side bs bs' b b' starts =
    ap (right_from []) (append_assoc bs (x ∷ side) bs')
    ∙ right_from-skip bs (x ∷ side ++ bs') b
    ∙ ap (λ s. right_from s (side ++ bs')) (collect-first x starts)
    ∙ right_from-keep x [] (side ++ bs')

NoOperators-append : (str bs : List ℕ) → NoOperators str → Blanks bs → NoOperators (str ++ bs)
unfolding NoOperators Blanks
NoOperators-append [] [] n b = tt
NoOperators-append [] (c ∷ bs) n (b, rest) =
    (blank-not-operator c b, NoOperators-append [] bs tt rest)
NoOperators-append (c ∷ str) bs (n, rest) b = (n, NoOperators-append str bs rest b)

and_false : (b : Bool) → (b && false) ≡ false
and_false true = refl
and_false false = refl

left_from-stop :
    (side : List ℕ) (op : ℕ) (str : List ℕ)
    → is_operator op ≡ true
    → left_from side (op ∷ str) ≡ some (trim_tail side, op ∷ str)
unfolding left_from
left_from-stop side op str e = rw (e, and_false (ltb (length side + 1) 64)) refl

left_lem :
    (x : ℕ) (side bs bs' : List ℕ) (op : ℕ) (str : List ℕ)
    → IsSide x side bs bs'
    → NoOperators (x ∷ side)
    → is_operator op ≡ true
    → left_from [] (bs ++ (x ∷ side) ++ bs' ++ (op ∷ str)) ≡ some (x ∷ side, op ∷ str)
unfolding left_from NoOperators trim_tail
left_lem x side bs bs' op str s (nx, n) is_op =
    ap (left_from [])
      (append_assoc (bs ++ (x ∷ side)) bs' (op ∷ str) ∙ append_assoc bs (x ∷ side) _)
    ∙ left_from-skip bs (x ∷ side ++ (bs' ++ (op ∷ str))) s.before_blank
    ∙ rw (nx, collect-first x s.starts) refl
    ∙ ap (left_from (x ∷ [])) (sym (append_assoc side bs' (op ∷ str)))
    ∙ left_from-keep x [] (side ++ bs') (op ∷ str) (NoOperators-append side bs' n s.after_blank)
        (omega (arith, length-append side bs', s.short))
    ∙ left_from-stop (x ∷ side ++ bs') op str is_op
    ∙ ap (λ l. some (x ∷ l, op ∷ str)) (drop_blanks-append side bs' s.after_blank ∙ s.ends)

next_is_eq-Blanks :
    (y : ℕ) (bs str : List ℕ) → Blanks bs → (y == 61) ≡ false → next_is_eq (bs ++ (y ∷ str)) ≡ false
unfolding next_is_eq Blanks is_blank
next_is_eq-Blanks y [] str b ne = ne
next_is_eq-Blanks y (c ∷ bs) str (b, _) ne = ground arith

operator_of-is_operator : (f : FormulaTestFlag) → is_operator (operator_of f) ≡ true
unfolding is_operator operator_of
operator_of-is_operator formula_test_unknown = refl
operator_of-is_operator formula_test_equal = refl
operator_of-is_operator formula_test_not_equal = refl
operator_of-is_operator formula_test_less_than = refl
operator_of-is_operator formula_test_greater_than = refl
operator_of-is_operator formula_test_less_or_eq = refl
operator_of-is_operator formula_test_greater_or_eq = refl

flag_of-operator_of : (f : FormulaTestFlag) → flag_of (operator_of f) (with_eq f) ≡ f
unfolding flag_of operator_of with_eq
flag_of-operator_of formula_test_unknown = refl
flag_of-operator_of formula_test_equal = refl
flag_of-operator_of formula_test_not_equal = refl
flag_of-operator_of formula_test_less_than = refl
flag_of-operator_of formula_test_greater_than = refl
flag_of-operator_of formula_test_less_or_eq = refl
flag_of-operator_of formula_test_greater_or_eq = refl

-- What stands behind the operator sign, whether or not `=` belongs to it.
from_operator_lem :
    (left : List ℕ) (op : ℕ) (eq : Bool) (str : List ℕ)
    → next_is_eq str ≡ false
    → from_operator (left, op ∷ ((if eq then 61 ∷ [] else []) ++ str))
      ≡ finish_formula left (flag_of op eq) (right_from [] str)
unfolding from_operator next_is_eq
from_operator_lem left op true str e = refl
from_operator_lem left op false str e = rw e refl

finish_lem :
    (left : List ℕ) (flag : FormulaTestFlag) (y : ℕ) (side bs bs' : List ℕ)
    → IsSide y side bs bs'
    → finish_formula left flag (right_from [] (bs ++ (y ∷ side) ++ bs'))
      ≡ some (record { left = left; right = y ∷ side; test_flag = flag })
unfolding finish_formula trim_tail
finish_lem left flag y side bs bs' s =
    ap (finish_formula left flag) (right_lem y side bs bs' s.before_blank s.after_blank s.starts)
    ∙ rw (lt→ltb (suc (length (side ++ bs'))) 64 (omega (arith, length-append side bs', s.short))) (
        ap (λ r. some (record { left = left; right = y ∷ r; test_flag = flag }))
          (drop_blanks-append side bs' s.after_blank ∙ s.ends))

-- A comparison that is written as a text, with any blanks around its sides, is parsed into its sides
-- without the blanks and its operator, if neither side is empty or longer with its blanks than the
-- buffer, the left one holds no operator sign and the right one does not start with `=`.
pub split_simple_formula-symbol :
    (x : ℕ) (l before after : List ℕ) (f : FormulaTestFlag) (y : ℕ) (r before' after' : List ℕ)
    → IsSide x l before after
    → NoOperators (x ∷ l)
    → IsSide y r before' after'
    → (y == 61) ≡ false
    → split_simple_formula
        (before ++ (x ∷ l) ++ after ++ (symbol f ++ (before' ++ (y ∷ r) ++ after')))
      ≡ some (record { left = x ∷ l; right = y ∷ r; test_flag = f })
unfolding split_simple_formula symbol
split_simple_formula-symbol x l before after f y r before' after' sl n sr ne =
    let no_eq : next_is_eq (before' ++ (y ∷ r) ++ after') ≡ false =
      ap next_is_eq (append_assoc before' (y ∷ r) after')
      ∙ next_is_eq-Blanks y before' (r ++ after') sr.before_blank ne in
    ap (λ m. m >>= from_operator)
      (left_lem x l before after (operator_of f) _ sl n (operator_of-is_operator f))
    ∙ from_operator_lem (x ∷ l) (operator_of f) (with_eq f) (before' ++ (y ∷ r) ++ after') no_eq
    ∙ finish_lem (x ∷ l) (flag_of (operator_of f) (with_eq f)) y r before' after' sr
    ∙ ap (λ flag. some (record { left = x ∷ l; right = y ∷ r; test_flag = flag }))
        (flag_of-operator_of f)
