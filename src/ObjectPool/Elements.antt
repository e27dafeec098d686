-- ===== src/ObjectPool/Elements.antt =====
-- The stack and the flags of a pool, read and written at an index.
use netsystem.Base.{
  ℕ, zero, suc, ◌+◌, ◌≤◌, ◌<◌, ◌≡◌, ◌≢◌, refl, ap, Bool, List, [], ◌∷◌, length, get_or, set, take,
  if◌then◌else◌, arith, count, count-cons, count-nil, unit,
}
use netsystem.ObjectPool.{Node, set_used, is_used}

pub count-take :
    (x n : ℕ) (xs : List ℕ)
    → n < length xs
    → count x (take (suc n) xs) ≡ count x (take n xs) + unit x (get_or xs n 0)
count-take x n [] h = absurd (omega arith)
count-take x zero (y ∷ ys) h = omega (arith, count-cons x y [], count-nil x)
count-take x (suc n) (y ∷ ys) h = omega (
  arith,
  count-take x n ys (omega arith),
  count-cons x y (take (suc n) ys),
  count-cons x y (take n ys),
)

pub count-take-set :
    (x n m v : ℕ) (xs : List ℕ) → n ≤ m → count x (take n (set xs m v)) ≡ count x (take n xs)
count-take-set x n m v [] h = refl
count-take-set x zero m v (y ∷ ys) h = refl
count-take-set x (suc n) zero v (y ∷ ys) h = absurd (omega arith)
count-take-set x (suc n) (suc m) v (y ∷ ys) h = omega (
  arith,
  count-take-set x n m v ys (omega arith),
  count-cons x y (take n ys),
  count-cons x y (take n (set ys m v)),
)

pub get_or-set : (xs : List ℕ) (n v : ℕ) → n < length xs → get_or (set xs n v) n 0 ≡ v
get_or-set [] n v h = absurd (omega arith)
get_or-set (x ∷ xs) zero v h = refl
get_or-set (x ∷ xs) (suc n) v h = get_or-set xs n v (omega arith)

module _ (T : Type 0) where
  -- 1 for an element in use
  abbrev pub in_use : List (Node T) → ℕ → ℕ
  in_use nodes i = if is_used T nodes i then 1 else 0

  pub length-set_used :
      (nodes : List (Node T)) (i : ℕ) (b : Bool) → length (set_used T nodes i b) ≡ length nodes
  unfolding set_used
  length-set_used [] i b = refl
  length-set_used (node ∷ nodes) zero b = refl
  length-set_used (node ∷ nodes) (suc i) b = ap suc (length-set_used nodes i b)

  pub is_used-set_used :
      (nodes : List (Node T)) (i : ℕ) (b : Bool)
      → i < length nodes
      → is_used T (set_used T nodes i b) i ≡ b
  unfolding set_used is_used
  is_used-set_used [] i b h = absurd (omega arith)
  is_used-set_used (node ∷ nodes) zero b h = refl
  is_used-set_used (node ∷ nodes) (suc i) b h = is_used-set_used nodes i b (omega arith)

  pub is_used-set_used_other :
      (nodes : List (Node T)) (i j : ℕ) (b : Bool)
      → i ≢ j
      → is_used T (set_used T nodes i b) j ≡ is_used T nodes j
  unfolding set_used is_used
  is_used-set_used_other [] i j b h = refl
  is_used-set_used_other (node ∷ nodes) zero zero b h = absurd (h refl)
  is_used-set_used_other (node ∷ nodes) zero (suc j) b h = refl
  is_used-set_used_other (node ∷ nodes) (suc i) zero b h = refl
  is_used-set_used_other (node ∷ nodes) (suc i) (suc j) b h =
      is_used-set_used_other nodes i j b (λ e. h (ap suc e))

  unfoldable pub used_num : List (Node T) → ℕ
  used_num [] = 0
  used_num (node ∷ nodes) = (if node.used then 1 else 0) + used_num nodes

  pub used_num-set_used :
      (nodes : List (Node T)) (i : ℕ) (b : Bool)
      → i < length nodes
      → used_num (set_used T nodes i b) + in_use nodes i ≡ used_num nodes + (if b then 1 else 0)
  unfolding set_used is_used used_num
  used_num-set_used [] i b h = absurd (omega arith)
  used_num-set_used (node ∷ nodes) zero b h = omega arith
  used_num-set_used (node ∷ nodes) (suc i) b h =
      omega (arith, used_num-set_used nodes i b (omega arith))

  pub in_use-le-used_num : (nodes : List (Node T)) (i : ℕ) → in_use nodes i ≤ used_num nodes
  unfolding is_used used_num
  in_use-le-used_num [] i = omega arith
  in_use-le-used_num (node ∷ nodes) zero = omega arith
  in_use-le-used_num (node ∷ nodes) (suc i) = omega (arith, in_use-le-used_num nodes i)
