-- ===== src/ObjectPool/Partition.antt =====
-- Every id of a pool is either in use or on the stack, once, and `SafeAlloc` keeps that.
use netsystem.Base.{
  ℕ, zero, suc, ◌+◌, ◌-◌, ◌≤◌, ◌<◌, ◌^◌, ◌≡◌, ◌≢◌, refl, ◌∙◌, ap, inl, inr, Bool, true, false, List,
  length, get_or, take, leb, ◌==◌, if◌then◌else◌, arith, Bool-cases, count, unit, unit_self,
  unit_other, subst, leb→le,
}
use netsystem.ObjectPool.{Pool, convert_id, set_used, is_used, safe_alloc}
use netsystem.ObjectPool.Elements.{
  count-take, in_use, length-set_used, is_used-set_used, is_used-set_used_other, used_num,
  used_num-set_used,
}

module _ (T : Type 0) where
  -- The ids on the stack.
  abbrev pub free : Pool T → List ℕ
  free p = take p.unused_size p.unused_ids

  pub record IsValid (p : Pool T) : Type 0 where
    pub elements : length p.all_elements ≡ p.total_size
    pub stack : length p.unused_ids ≡ p.total_size
    pub unused : p.unused_size ≤ p.total_size
    pub small : 1 + p.base_id + p.total_size < 2 ^ 32
    pub either : (i : ℕ) → i < p.total_size → count (suc i) (free p) + in_use T p.all_elements i ≡ 1
    pub inside : (i : ℕ) → p.total_size ≤ i → count (suc i) (free p) ≡ 0
    pub balance : p.unused_size + used_num T p.all_elements ≡ p.total_size
    pub positive : count 0 (free p) ≡ 0

  -- the ids that a pop leaves on the stack
  count-pop :
      {p : Pool T} (x : ℕ)
      → IsValid p
      → 0 < p.unused_size
      → count x (free p)
        ≡ count x (take (p.unused_size - 1) p.unused_ids)
          + unit x (get_or p.unused_ids (p.unused_size - 1) 0)
  count-pop {p} x v pos =
      let size : p.unused_size ≡ suc (p.unused_size - 1) = omega arith in
      ap (λ n. count x (take n p.unused_ids)) size
      ∙ count-take x (p.unused_size - 1) p.unused_ids (omega (arith, v.stack, v.unused))

  top_lem :
      {p : Pool T}
      → IsValid p
      → 0 < p.unused_size
      → (i : ℕ) × (get_or p.unused_ids (p.unused_size - 1) 0 ≡ suc i) × (i < p.total_size)
  top_lem {p} v pos = go (get_or p.unused_ids (p.unused_size - 1) 0) refl
    where
      top : ℕ
      top = get_or p.unused_ids (p.unused_size - 1) 0

      on_stack : 0 < count top (free p)
      on_stack = omega (arith, count-pop top v pos, unit_self top)

      go : (x : ℕ) → top ≡ x → (i : ℕ) × (top ≡ suc i) × (i < p.total_size)
      go zero e = absurd (omega (arith, on_stack, ap (λ y. count y (free p)) e, v.positive))
      go (suc i) e = (
        i,
        e,
        elim (Bool-cases (leb p.total_size i)) [
          | inl out ↦ absurd (
              omega (
                arith,
                on_stack,
                ap (λ y. count y (free p)) e,
                v.inside i (leb→le p.total_size i out),
              ))
          | inr within ↦ ground arith
        ],
      )

  -- the pool with the id `suc i` popped off the stack
  abbrev popped : Pool T → ℕ → Pool T
  popped p i = record p {
    unused_size = p.unused_size - 1;
    all_elements = set_used T p.all_elements i true;
  }

  popped-IsValid :
      (p : Pool T) (i : ℕ)
      → IsValid p
      → 0 < p.unused_size
      → get_or p.unused_ids (p.unused_size - 1) 0 ≡ suc i
      → i < p.total_size
      → IsValid (popped p i)
  popped-IsValid p i v pos top within = record {
    elements = length-set_used T p.all_elements i true ∙ v.elements;
    stack = v.stack;
    unused = omega (arith, v.unused);
    small = v.small;
    either = λ j h. elim (Bool-cases (i == j)) [
      | inl same ↦
          let equal : i ≡ j = ground arith in
          subst (λ k. count (suc k) (free (popped p i)) + in_use T (popped p i).all_elements k ≡ 1)
            equal
            (let set_here = is_used-set_used T p.all_elements i true (omega (arith, v.elements)) in
              let here = left_over (suc i) in
              let bound = v.either i within in
              rw set_here (omega (arith, here, unit_self (suc i), bound)))
      | inr other ↦
          let apart : i ≢ j = λ e. ground arith in
          let none_here : unit (suc j) (suc i) ≡ 0 = unit_other (suc j) (suc i) (ground arith) in
          rw (is_used-set_used_other T p.all_elements i j true apart)
            (omega (arith, left_over (suc j), none_here, v.either j h))
    ];
    inside = λ j h. omega (arith, left_over (suc j), v.inside j h);
    balance =
        let before : in_use T p.all_elements i ≡ 0 =
          omega (arith, v.either i within, left_over (suc i), unit_self (suc i)) in
        omega (
          arith,
          used_num-set_used T p.all_elements i true (omega (arith, v.elements)),
          before,
          v.balance,
        );
    positive = omega (arith, left_over 0, v.positive);
  }
    where
      left_over :
          (x : ℕ)
          → count x (free p) ≡ count x (take (p.unused_size - 1) p.unused_ids) + unit x (suc i)
      left_over x =
          count-pop x v pos
          ∙ ap (λ y. count x (take (p.unused_size - 1) p.unused_ids) + unit x y) top

  pub convert_id_lem :
      {p : Pool T} (i : ℕ)
      → IsValid p
      → i < p.total_size
      → convert_id T p.base_id p.total_size (suc i) ≡ p.base_id + p.total_size - i
  unfolding convert_id
  convert_id_lem i v within = omega (arith, v.small)

  -- back from the object id
  pub convert_id_back :
      {p : Pool T} (i : ℕ)
      → IsValid p
      → i < p.total_size
      → convert_id T p.base_id p.total_size (p.base_id + p.total_size - i) ≡ suc i
  unfolding convert_id
  convert_id_back i v within = omega (arith, v.small)

  unused_of : (b : Bool) → ◌≡◌ {A = ℕ} (if b then 1 else 0) 0 → b ≡ false
  unused_of true e = absurd (omega (arith, e))
  unused_of false e = refl

  -- While an object of a valid pool is not in use, `SafeAlloc` hands one out that is not in use,
  -- under an object id between `_base_id + 1` and `_base_id + _total_size`; it is in use after that,
  -- one id fewer is on the stack, and the pool stays valid: each id is on the stack or in use, once.
  pub safe_alloc_lem :
      (p : Pool T)
      → IsValid p
      → 0 < p.unused_size
      → let (objid, p') = safe_alloc T p in
        (i : ℕ) × (i < p.total_size)
        × (objid ≡ p.base_id + p.total_size - i)
        × (is_used T p.all_elements i ≡ false)
        × (is_used T p'.all_elements i ≡ true)
        × (p'.unused_size + 1 ≡ p.unused_size)
        × IsValid p'
  unfolding safe_alloc
  safe_alloc_lem p v pos =
      let (i, top, within) = top_lem v pos in
      let some_left : (0 == p.unused_size) ≡ false = ground arith in
      let on_stack : 0 < count (suc i) (free p) =
        omega (arith, count-pop (suc i) v pos, ap (unit (suc i)) top, unit_self (suc i)) in
      let pred : suc i - 1 ≡ i = omega arith in
      rw (some_left, top, pred)
        (
          i,
          within,
          convert_id_lem i v within,
          unused_of (is_used T p.all_elements i) (omega (arith, v.either i within, on_stack)),
          is_used-set_used T p.all_elements i true (omega (arith, v.elements)),
          omega arith,
          popped-IsValid p i v pos top within,
        )
