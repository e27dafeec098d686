-- ===== src/Accounts/Count.antt =====
-- Reading and writing the accounts of a pool, and how many of them are online.
use netsystem.Base.{
  ℕ, zero, suc, ◌+◌, ◌≤◌, ◌<◌, ◌≡◌, ◌≢◌, refl, ap, Bool, ◌&&◌, [], ◌∷◌, length, if◌then◌else◌,
  arith,
}
use netsystem.ObjectPool.{set_used, is_used}
use netsystem.ObjectPool.Elements.{used_num}
use netsystem.Accounts.{OnOff, AccountState, Nodes, data_at, set_data, is_online, calc_online_count}

-- 1 for an account that is in use and online
abbrev pub online_at : Nodes → ℕ → ℕ
online_at nodes i =
    if is_used AccountState nodes i && is_online (data_at nodes i).onoff then 1 else 0

pub length-set_data :
    (nodes : Nodes) (i : ℕ) (st : AccountState) → length (set_data nodes i st) ≡ length nodes
unfolding set_data
length-set_data [] i st = refl
length-set_data (node ∷ nodes) zero st = refl
length-set_data (node ∷ nodes) (suc i) st = ap suc (length-set_data nodes i st)

pub is_used-set_data :
    (nodes : Nodes) (i j : ℕ) (st : AccountState)
    → is_used AccountState (set_data nodes i st) j ≡ is_used AccountState nodes j
unfolding set_data is_used
is_used-set_data [] i j st = refl
is_used-set_data (node ∷ nodes) zero zero st = refl
is_used-set_data (node ∷ nodes) zero (suc j) st = refl
is_used-set_data (node ∷ nodes) (suc i) zero st = refl
is_used-set_data (node ∷ nodes) (suc i) (suc j) st = is_used-set_data nodes i j st

pub used_num-set_data :
    (nodes : Nodes) (i : ℕ) (st : AccountState)
    → used_num AccountState (set_data nodes i st) ≡ used_num AccountState nodes
unfolding set_data used_num
used_num-set_data [] i st = refl
used_num-set_data (node ∷ nodes) zero st = refl
used_num-set_data (node ∷ nodes) (suc i) st = omega (arith, used_num-set_data nodes i st)

pub data_at-set_data :
    (nodes : Nodes) (i : ℕ) (st : AccountState)
    → i < length nodes
    → data_at (set_data nodes i st) i ≡ st
unfolding set_data data_at
data_at-set_data [] i st h = absurd (omega arith)
data_at-set_data (node ∷ nodes) zero st h = refl
data_at-set_data (node ∷ nodes) (suc i) st h = data_at-set_data nodes i st (omega arith)

pub data_at-set_data_other :
    (nodes : Nodes) (i j : ℕ) (st : AccountState)
    → i ≢ j
    → data_at (set_data nodes i st) j ≡ data_at nodes j
unfolding set_data data_at
data_at-set_data_other [] i j st h = refl
data_at-set_data_other (node ∷ nodes) zero zero st h = absurd (h refl)
data_at-set_data_other (node ∷ nodes) zero (suc j) st h = refl
data_at-set_data_other (node ∷ nodes) (suc i) zero st h = refl
data_at-set_data_other (node ∷ nodes) (suc i) (suc j) st h =
    data_at-set_data_other nodes i j st (λ e. h (ap suc e))

pub data_at-set_used :
    (nodes : Nodes) (i j : ℕ) (b : Bool)
    → data_at (set_used AccountState nodes i b) j ≡ data_at nodes j
unfolding set_used data_at
data_at-set_used [] i j b = refl
data_at-set_used (node ∷ nodes) zero zero b = refl
data_at-set_used (node ∷ nodes) zero (suc j) b = refl
data_at-set_used (node ∷ nodes) (suc i) zero b = refl
data_at-set_used (node ∷ nodes) (suc i) (suc j) b = data_at-set_used nodes i j b

-- 1 for an account in use that is online as it is to be stored
abbrev pub online_as : Nodes → ℕ → OnOff → ℕ
online_as nodes i onoff = if is_used AccountState nodes i && is_online onoff then 1 else 0

pub calc_online_count-set_data :
    (nodes : Nodes) (i : ℕ) (st : AccountState)
    → i < length nodes
    → calc_online_count (set_data nodes i st) + online_at nodes i
      ≡ calc_online_count nodes + online_as nodes i st.onoff
unfolding calc_online_count set_data is_used data_at
calc_online_count-set_data [] i st h = absurd (omega arith)
calc_online_count-set_data (node ∷ nodes) zero st h = omega arith
calc_online_count-set_data (node ∷ nodes) (suc i) st h =
    omega (arith, calc_online_count-set_data nodes i st (omega arith))

-- An element taken into use or put out of use counts if it is online.
pub calc_online_count-set_used :
    (nodes : Nodes) (i : ℕ) (b : Bool)
    → i < length nodes
    → calc_online_count (set_used AccountState nodes i b) + online_at nodes i
      ≡ calc_online_count nodes + (if b && is_online (data_at nodes i).onoff then 1 else 0)
unfolding calc_online_count set_used is_used data_at
calc_online_count-set_used [] i b h = absurd (omega arith)
calc_online_count-set_used (node ∷ nodes) zero b h = omega arith
calc_online_count-set_used (node ∷ nodes) (suc i) b h =
    omega (arith, calc_online_count-set_used nodes i b (omega arith))

pub online_at-le-calc_online_count :
    (nodes : Nodes) (i : ℕ) → online_at nodes i ≤ calc_online_count nodes
unfolding calc_online_count is_used data_at
online_at-le-calc_online_count [] i = omega arith
online_at-le-calc_online_count (node ∷ nodes) zero = omega arith
online_at-le-calc_online_count (node ∷ nodes) (suc i) =
    omega (arith, online_at-le-calc_online_count nodes i)

pub calc_online_count-le-length : (nodes : Nodes) → calc_online_count nodes ≤ length nodes
unfolding calc_online_count
calc_online_count-le-length [] = omega arith
calc_online_count-le-length (node ∷ nodes) = ground (arith, calc_online_count-le-length nodes)

-- What is stored has the value of a field that the account had before.
pub field-set_data {ℓ} :
    {A : Type ℓ} (f : AccountState → A) (nodes : Nodes) (i j : ℕ) (st : AccountState)
    → f st ≡ f (data_at nodes i)
    → f (data_at (set_data nodes i st) j) ≡ f (data_at nodes j)
unfolding set_data data_at
field-set_data f [] i j st h = refl
field-set_data f (node ∷ nodes) zero zero st h = h
field-set_data f (node ∷ nodes) zero (suc j) st h = refl
field-set_data f (node ∷ nodes) (suc i) zero st h = refl
field-set_data f (node ∷ nodes) (suc i) (suc j) st h = field-set_data f nodes i j st h

pub calc_online_count-set_data_same :
    (nodes : Nodes) (i : ℕ) (st : AccountState)
    → st.onoff ≡ (data_at nodes i).onoff
    → calc_online_count (set_data nodes i st) ≡ calc_online_count nodes
unfolding calc_online_count set_data data_at
calc_online_count-set_data_same [] i st h = refl
calc_online_count-set_data_same (node ∷ nodes) zero st h =
    ap (λ o. (if node.used && is_online o then 1 else 0) + calc_online_count nodes) h
calc_online_count-set_data_same (node ∷ nodes) (suc i) st h =
    omega (arith, calc_online_count-set_data_same nodes i st h)
