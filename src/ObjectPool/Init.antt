-- ===== src/ObjectPool/Init.antt =====
-- A new pool: no object is in use.
use netsystem.Base.{
  ℕ, zero, suc, ◌+◌, ◌≤◌, ◌<◌, ◌^◌, ◌≡◌, ◌⊎◌, refl, ◌∙◌, ap, inl, inr, false, length, take, arith,
  take_all, ◌==◌, Bool-cases, count, count-cons, count-nil, unit, unit_same, unit_other,
}
use netsystem.ObjectPool.{new_nodes, ids_from, safe_init, is_used}
use netsystem.ObjectPool.Elements.{used_num}
use netsystem.ObjectPool.Partition.{IsValid}

length-ids_from : (T : Type 0) (i n : ℕ) → length (ids_from T i n) ≡ n
unfolding ids_from
length-ids_from T i zero = refl
length-ids_from T i (suc n) = ap suc (length-ids_from T (suc i) n)

count-ids_from_outside :
    (T : Type 0) (x i n : ℕ) → (x ≤ i) ⊎ (i + n < x) → count x (ids_from T i n) ≡ 0
unfolding ids_from
count-ids_from_outside T x i zero h = count-nil x
count-ids_from_outside T x i (suc n) h =
    let none_here : unit x (suc i) ≡ 0 = unit_other x (suc i) (ground (arith, h)) in
    let rest : count x (ids_from T (suc i) n) ≡ 0 =
      count-ids_from_outside T x (suc i) n
        (elim h [ inl below ↦ inl (omega arith) | inr above ↦ inr (omega arith) ]) in
    omega (arith, count-cons x (suc i) (ids_from T (suc i) n), none_here, rest)

count-ids_from_inside : (T : Type 0) (x i n : ℕ) → i < x → x ≤ i + n → count x (ids_from T i n) ≡ 1
unfolding ids_from
count-ids_from_inside T x i zero above below = absurd (omega arith)
count-ids_from_inside T x i (suc n) above below = elim (Bool-cases (x == suc i)) [
  | inl same ↦
      let equal : x ≡ suc i = ground arith in
      omega (
        arith,
        count-cons x (suc i) (ids_from T (suc i) n),
        unit_same x (suc i) same,
        count-ids_from_outside T x (suc i) n (inl (omega (arith, equal))),
      )
  | inr other ↦
      let later : suc i < x = ground arith in
      omega (
        arith,
        count-cons x (suc i) (ids_from T (suc i) n),
        unit_other x (suc i) other,
        count-ids_from_inside T x (suc i) n later (omega arith),
      )
]

module _ (T : Type 0) (fresh : ℕ → T) where
  length-new_nodes : (k n : ℕ) → length (new_nodes T fresh k n) ≡ n
  unfolding new_nodes
  length-new_nodes k zero = refl
  length-new_nodes k (suc n) = ap suc (length-new_nodes (suc k) n)

  pub is_used-new_nodes : (k n i : ℕ) → is_used T (new_nodes T fresh k n) i ≡ false
  unfolding is_used new_nodes
  is_used-new_nodes k zero i = refl
  is_used-new_nodes k (suc n) zero = refl
  is_used-new_nodes k (suc n) (suc i) = is_used-new_nodes (suc k) n i

  used_num-new_nodes : (k n : ℕ) → used_num T (new_nodes T fresh k n) ≡ 0
  unfolding used_num new_nodes
  used_num-new_nodes k zero = refl
  used_num-new_nodes k (suc n) = omega (arith, used_num-new_nodes (suc k) n)

  -- `SafeInit` makes a pool whose ids are all on the stack, each once, provided that the object ids fit
  -- 32 bits.
  pub safe_init-IsValid :
      (base_id size : ℕ) → 1 + base_id + size < 2 ^ 32 → IsValid T (safe_init T fresh base_id size)
  unfolding safe_init
  safe_init-IsValid base_id size small = record {
    elements = length-new_nodes 0 size;
    stack = length-ids_from T 0 size;
    unused = omega arith;
    small = small;
    either = λ i h. rw (is_used-new_nodes 0 size i) (
        omega
          (arith, all (suc i), count-ids_from_inside T (suc i) 0 size (omega arith) (omega arith)));
    inside = λ i h. all (suc i) ∙ count-ids_from_outside T (suc i) 0 size (inr (omega arith));
    balance = omega (arith, used_num-new_nodes 0 size);
    positive = all 0 ∙ count-ids_from_outside T 0 0 size (inl (omega arith));
  }
    where
      all : (x : ℕ) → count x (take size (ids_from T 0 size)) ≡ count x (ids_from T 0 size)
      all x =
          ap (count x) (take_all size (ids_from T 0 size) (omega (arith, length-ids_from T 0 size)))
