-- ===== src/ObjectPool/Release.antt =====
-- An object that is released goes back on the stack.
use netsystem.Base.{
  get_or, sym, some_eq, if_some, ◌&&◌, ℕ, suc, ◌+◌, ◌-◌, ◌<◌, ◌≡◌, ◌≢◌, refl, ◌∙◌, ap, ap₂, ltb,
  inl, inr, true, false, some, length, set, take, leb, ◌==◌, arith, Bool-cases, count, unit,
  unit_self, unit_other, length-set, subst,
}
use netsystem.ObjectPool.{Pool, convert_id, get, set_used, is_used, safe_alloc, release}
use netsystem.ObjectPool.Elements.{
  count-take, count-take-set, get_or-set, in_use, length-set_used, is_used-set_used,
  is_used-set_used_other, used_num-set_used, in_use-le-used_num,
}
use netsystem.ObjectPool.Partition.{free, IsValid, convert_id_lem, convert_id_back}

module _ (T : Type 0) where
  -- the pool with the id `suc i` pushed on the stack
  abbrev pushed : Pool T → ℕ → Pool T
  pushed p i = record p {
    all_elements = set_used T p.all_elements i false;
    unused_size = p.unused_size + 1;
    unused_ids = set p.unused_ids p.unused_size (suc i);
  }

  -- Where an id is in use, the stack has room for it.
  room_lem :
      (p : Pool T) (i : ℕ)
      → IsValid T p
      → i < p.total_size
      → is_used T p.all_elements i ≡ true
      → p.unused_size < p.total_size
  room_lem p i v within used =
      let here : in_use T p.all_elements i ≡ 1 = rw used refl in
      omega (arith, here, in_use-le-used_num T p.all_elements i, v.balance)

  pushed-IsValid :
      (p : Pool T) (i : ℕ)
      → IsValid T p
      → i < p.total_size
      → is_used T p.all_elements i ≡ true
      → IsValid T (pushed p i)
  pushed-IsValid p i v within used = record {
    elements = length-set_used T p.all_elements i false ∙ v.elements;
    stack = length-set p.unused_ids p.unused_size (suc i) ∙ v.stack;
    unused = omega (arith, room);
    small = v.small;
    either = λ j h. elim (Bool-cases (i == j)) [
      | inl same ↦
          let equal : i ≡ j = ground arith in
          subst
            (λ k. count (suc k) (free T (pushed p i)) + in_use T (pushed p i).all_elements k ≡ 1)
            equal
            (let set_here = is_used-set_used T p.all_elements i false (omega (arith, v.elements)) in
              rw set_here
                (omega (arith, put (suc i), unit_self (suc i), v.either i within, in_use_here)))
      | inr other ↦
          let apart : i ≢ j = λ e. ground arith in
          let none_here : unit (suc j) (suc i) ≡ 0 = unit_other (suc j) (suc i) (ground arith) in
          rw (is_used-set_used_other T p.all_elements i j false apart)
            (omega (arith, put (suc j), none_here, v.either j h))
    ];
    inside = λ j h.
        let none_here : unit (suc j) (suc i) ≡ 0 = unit_other (suc j) (suc i) (ground arith) in
        omega (arith, put (suc j), none_here, v.inside j h);
    balance = omega (
      arith,
      used_num-set_used T p.all_elements i false (omega (arith, v.elements)),
      in_use_here,
      v.balance,
    );
    positive =
        let none_here : unit 0 (suc i) ≡ 0 = unit_other 0 (suc i) (ground arith) in
        omega (arith, put 0, none_here, v.positive);
  }
    where
      room : p.unused_size < p.total_size
      room = room_lem p i v within used

      in_use_here : in_use T p.all_elements i ≡ 1
      in_use_here = rw used refl

      put : (x : ℕ) → count x (free T (pushed p i)) ≡ count x (free T p) + unit x (suc i)
      put x =
          let size : p.unused_size + 1 ≡ suc p.unused_size = omega arith in
          let longer : p.unused_size < length (set p.unused_ids p.unused_size (suc i)) =
            omega (arith, length-set p.unused_ids p.unused_size (suc i), v.stack, room) in
          ap (λ n. count x (take n (set p.unused_ids p.unused_size (suc i)))) size
          ∙ count-take x p.unused_size (set p.unused_ids p.unused_size (suc i)) longer
          ∙ ap₂ (λ a b. a + unit x b)
              (count-take-set x p.unused_size p.unused_size (suc i) p.unused_ids (omega arith))
              (get_or-set p.unused_ids p.unused_size (suc i) (omega (arith, v.stack, room)))

  -- In a valid pool an object that is in use can be released by its object id. It is not in use
  -- after that, the pool stays valid, and the next `SafeAlloc` hands out the same object id.
  pub release-safe_alloc :
      (p : Pool T) (i : ℕ)
      → IsValid T p
      → i < p.total_size
      → is_used T p.all_elements i ≡ true
      → let objid = p.base_id + p.total_size - i in
        (p' : Pool T) × (release T p objid ≡ some p')
        × (is_used T p'.all_elements i ≡ false)
        × IsValid T p'
        × ((safe_alloc T p').0 ≡ objid)
  unfolding release safe_alloc
  release-safe_alloc p i v within used =
      let room = room_lem p i v within used in
      let pred : suc i - 1 ≡ i = omega arith in
      let low : leb 1 (suc i) ≡ true = ground arith in
      let high : leb (suc i) p.total_size ≡ true = ground arith in
      let space : ltb p.unused_size (length p.unused_ids) ≡ true = ground (arith, v.stack, room) in
      let some_left : (0 == p.unused_size + 1) ≡ false = ground arith in
      let top : p.unused_size + 1 - 1 ≡ p.unused_size = omega arith in
      (
        pushed p i,
        rw (convert_id_back T i v within, pred, low, high, used, space),
        is_used-set_used T p.all_elements i false (omega (arith, v.elements)),
        pushed-IsValid p i v within used,
        rw
            (
              some_left,
              top,
              get_or-set p.unused_ids p.unused_size (suc i) (omega (arith, v.stack, room)),
            )
            (convert_id_lem T i v within),
      )

  -- what a release leaves as it is
  pub release_parts :
      (p : Pool T) (objid : ℕ) {p' : Pool T}
      → release T p objid ≡ some p'
      → (p'.all_elements
          ≡ set_used T p.all_elements (convert_id T p.base_id p.total_size objid - 1) false)
        × (p'.base_id ≡ p.base_id)
        × (p'.total_size ≡ p.total_size)
  unfolding release
  release_parts p objid done =
      let (_, is) =
        if_some
          (leb 1 (convert_id T p.base_id p.total_size objid)
            && leb (convert_id T p.base_id p.total_size objid) p.total_size
            && is_used T p.all_elements (convert_id T p.base_id p.total_size objid - 1)
            && ltb p.unused_size (length p.unused_ids))
          done in
      let same = sym (some_eq is) in
      (ap (λ q. q.all_elements) same, ap (λ q. q.base_id) same, ap (λ q. q.total_size) same)

  -- what an allocation leaves as it is
  pub safe_alloc_parts :
      (p : Pool T)
      → 0 < p.unused_size
      → let (objid, p') = safe_alloc T p in
        (j : ℕ) × (p'.all_elements ≡ set_used T p.all_elements j true)
        × (p'.base_id ≡ p.base_id)
        × (p'.total_size ≡ p.total_size)
  unfolding safe_alloc
  safe_alloc_parts p pos =
      let some_left : (0 == p.unused_size) ≡ false = ground arith in
      rw some_left (get_or p.unused_ids (p.unused_size - 1) 0 - 1, refl, refl, refl)

  pub safe_alloc_full : (p : Pool T) → (0 == p.unused_size) ≡ true → safe_alloc T p ≡ (0, p)
  unfolding safe_alloc
  safe_alloc_full p e = rw e refl

  -- `Get` of the object id of an element
  pub get_lem :
      (p : Pool T) (i : ℕ)
      → IsValid T p
      → i < p.total_size
      → get T p (p.base_id + p.total_size - i) ≡ some i
  get_lem p i v within =
      let pred : suc i - 1 ≡ i = omega arith in
      let low : leb 1 (suc i) ≡ true = ground arith in
      let high : leb (suc i) p.total_size ≡ true = ground arith in
      unfold get in rw (convert_id_back T i v within, low, high, pred) refl
