-- ===== src/Accounts/Fresh.antt =====
-- A new account of the pool.
use netsystem.Base.{
  ℕ, zero, suc, ◌+◌, ◌-◌, ◌<◌, ◌≡◌, ◌≢◌, refl, sym, ap, subst, ◌∙◌, inl, inr, Bool, true, false,
  ◌&&◌, Option, none, some, length, [], ◌∷◌, ltb, ◌==◌, if◌then◌else◌, arith, Bool-cases, ==_iff,
  lt→ltb,
}
use netsystem.ObjectPool.{Pool, set_used, is_used, safe_alloc, get}
use netsystem.ObjectPool.Elements.{is_used-set_used, is_used-set_used_other}
use netsystem.ObjectPool.Partition.{IsValid, safe_alloc_lem}
use netsystem.ObjectPool.Release.{safe_alloc_parts, safe_alloc_full, get_lem}
use netsystem.Accounts.{
  init, AccountState, AccountList, Nodes, data_at, set_data, store, is_online, calc_online_count,
  blank, alloc,
}
use netsystem.Accounts.Count.{
  online_at, is_used-set_data, data_at-set_data, data_at-set_data_other, data_at-set_used,
  calc_online_count-set_data, calc_online_count-set_used,
}
use netsystem.Accounts.Sound.{Sound, IsSound, InUse, set_data-IsValid}
use netsystem.Accounts.Slots.{flag_index, apart_lem}

-- the account that `memset` and two assignments leave
abbrev fresh : ℕ → AccountState
fresh objid = record blank { keyid = objid; onoff = init }

-- An element that was not in use is taken into use with a fresh account.
fresh-Sound :
    {p p' : Pool AccountState} {count : ℕ} (i objid : ℕ)
    → Sound p count
    → i < p.total_size
    → objid ≡ p.base_id + p.total_size - i
    → is_used AccountState p.all_elements i ≡ false
    → IsValid AccountState p'
    → p'.all_elements ≡ set_used AccountState p.all_elements i true
    → p'.base_id ≡ p.base_id
    → p'.total_size ≡ p.total_size
    → Sound (record p' { all_elements = set_data p'.all_elements i (fresh objid) }) count
fresh-Sound {p} {p'} {count} i objid s within name unused valid elements base size = record {
  valid = set_data-IsValid i (fresh objid) valid;
  counted = omega (
    arith,
    s.counted,
    calc_online_count-set_data p'.all_elements i (fresh objid) inside,
    fresh_line (is_used AccountState p'.all_elements i),
    same_line,
    ap calc_online_count elements,
    calc_online_count-set_used p.all_elements i true inside_before,
    not_before,
  );
  named = λ j h. elim (Bool-cases (i == j)) [
    | inl same ↦
        subst
          (λ k.
            (data_at (set_data p'.all_elements i (fresh objid)) k).keyid
            ≡ p'.base_id + p'.total_size - k)
          ((==_iff i j).0 same)
          (omega (
            arith,
            ap (λ d. d.keyid) (data_at-set_data p'.all_elements i (fresh objid) inside),
            name,
            base,
            size,
          ))
    | inr other ↦ omega (
      arith,
      ap (λ d. d.keyid) (same_data j (apart_lem i j other)),
      s.named j (sym (same_flag j (apart_lem i j other)) ∙ h),
      base,
      size,
    )
  ];
  ready = λ j h. elim (Bool-cases (i == j)) [
    | inl same ↦
        subst (λ k. is_used AccountState (set_data p'.all_elements i (fresh objid)) k ≡ true)
          ((==_iff i j).0 same) (is_used-set_data p'.all_elements i i (fresh objid) ∙ now_used)
    | inr other ↦
        same_flag j (apart_lem i j other)
        ∙ s.ready j (ap (λ d. d.is_ready) (sym (same_data j (apart_lem i j other))) ∙ h)
  ];
}
  where
    inside_before : i < length p.all_elements
    inside_before = omega (arith, s.valid.elements)

    inside : i < length p'.all_elements
    inside = omega (arith, valid.elements, size)

    now_used : is_used AccountState p'.all_elements i ≡ true
    now_used =
        ap (λ e. is_used AccountState e i) elements
        ∙ is_used-set_used AccountState p.all_elements i true inside_before

    fresh_line : (b : Bool) → ◌≡◌ {A = ℕ} (if b && is_online (fresh objid).onoff then 1 else 0) 0
    fresh_line true = unfold is_online blank in refl
    fresh_line false = refl

    data_before : data_at p'.all_elements i ≡ data_at p.all_elements i
    data_before = ap (λ e. data_at e i) elements ∙ data_at-set_used p.all_elements i i true

    same_line :
        online_at p'.all_elements i
        ≡ (if true && is_online (data_at p.all_elements i).onoff then 1 else 0)
    same_line = rw (now_used, data_before) refl

    not_before : online_at p.all_elements i ≡ 0
    not_before = rw unused refl

    same_flag :
        (j : ℕ)
        → i ≢ j
        → is_used AccountState (set_data p'.all_elements i (fresh objid)) j
          ≡ is_used AccountState p.all_elements j
    same_flag j apart =
        is_used-set_data p'.all_elements i j (fresh objid)
        ∙ ap (λ e. is_used AccountState e j) elements
        ∙ is_used-set_used_other AccountState p.all_elements i j true apart

    same_data :
        (j : ℕ)
        → i ≢ j
        → data_at (set_data p'.all_elements i (fresh objid)) j ≡ data_at p.all_elements j
    same_data j apart =
        data_at-set_data_other p'.all_elements i j (fresh objid) apart
        ∙ ap (λ e. data_at e j) elements
        ∙ data_at-set_used p.all_elements i j true

-- What a call hands out is a null pointer or an account in use.
unfoldable pub Given : Option ℕ → AccountList → Type 0
Given none l = Unit
Given (some i) l = InUse i l

set_used-keeps :
    (nodes : Nodes) (i k : ℕ)
    → is_used AccountState nodes k ≡ true
    → is_used AccountState (set_used AccountState nodes i true) k ≡ true
unfolding set_used is_used
set_used-keeps [] i k h = h
set_used-keeps (node ∷ nodes) zero zero h = refl
set_used-keeps (node ∷ nodes) zero (suc k) h = h
set_used-keeps (node ∷ nodes) (suc i) zero h = h
set_used-keeps (node ∷ nodes) (suc i) (suc k) h = set_used-keeps nodes i k h

-- A new account, if the pool has one left, is in use; the accounts stay sound and in use.
pub alloc-IsSound :
    (l : AccountList)
    → IsSound l
    → (o : Option ℕ) × (l' : AccountList) × (alloc l ≡ some (o, l'))
      × IsSound l'
      × Given o l'
      × ((k : ℕ) → InUse k l → InUse k l')
unfolding alloc Given
alloc-IsSound l s = elim (Bool-cases (0 == l.pool.unused_size)) [
  | inl full ↦ rw (safe_alloc_full AccountState l.pool full) (none, l, refl, s, tt, λ k h. h)
  | inr left ↦
      let pos : 0 < l.pool.unused_size = ground arith in
      let (i, within, name, unused, used, _, valid) =
        safe_alloc_lem AccountState l.pool s.valid pos in
      let (j, elements, base, size) = safe_alloc_parts AccountState l.pool pos in
      let objid = (safe_alloc AccountState l.pool).0 in
      let p' = (safe_alloc AccountState l.pool).1 in
      let same : j ≡ i =
        flag_index l.pool.all_elements i j true unused
          (ap (λ e. is_used AccountState e i) (sym elements) ∙ used) in
      let handed : ltb 0 (safe_alloc AccountState l.pool).0 ≡ true =
        lt→ltb 0 objid (omega (arith, name, within)) in
      let within' : i < p'.total_size = omega (arith, within, size) in
      let name' : p'.base_id + p'.total_size - i ≡ objid = omega (arith, name, base, size) in
      let found : get AccountState (safe_alloc AccountState l.pool).1
            (safe_alloc AccountState l.pool).0
          ≡ some i =
        ap (get AccountState p') (sym name') ∙ get_lem AccountState p' i valid within' in
      rw (handed, found)
        (
          some i,
          store i (fresh objid) (record l { pool = p' }),
          refl,
          fresh-Sound i objid s within name unused valid
              (elements ∙ ap (λ k. set_used AccountState l.pool.all_elements k true) same) base
              size,
          is_used-set_data p'.all_elements i i (fresh objid) ∙ used,
          λ k h.
              is_used-set_data p'.all_elements i k (fresh objid)
              ∙ ap (λ e. is_used AccountState e k) elements
              ∙ set_used-keeps l.pool.all_elements j k h,
        )
]
