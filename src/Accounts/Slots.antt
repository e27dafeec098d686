-- ===== src/Accounts/Slots.antt =====
-- Taking an account of the pool into use and giving it back.
use netsystem.Base.{
  ℕ, suc, ◌+◌, ◌-◌, ◌<◌, ◌≡◌, ◌≢◌, refl, sym, ap, ◌∙◌, inl, inr, Bool, true, false, ◌&&◌, some,
  List, length, ◌==◌, if◌then◌else◌, arith, Bool-cases, ==_iff, erase,
}
use netsystem.ObjectPool.{Pool, set_used, is_used, release}
use netsystem.ObjectPool.Elements.{is_used-set_used, is_used-set_used_other}
use netsystem.ObjectPool.Partition.{IsValid, convert_id_back}
use netsystem.ObjectPool.Release.{release-safe_alloc, release_parts}
use netsystem.Accounts.{
  offline, AccountState, AccountList, Nodes, data_at, account, store, is_online, calc_online_count,
  go_offline, release_internal, erase_positive,
}
use netsystem.Accounts.Count.{data_at-set_data, data_at-set_used, calc_online_count-set_used}
use netsystem.Accounts.Sound.{
  Sound, IsSound, InUse, used_within, same-Sound, go_offline-IsSound, InUse-store,
}

-- A flag that is set after it was changed at one index, and was not before, is the one at that index.
pub flag_index :
    (nodes : Nodes) (i j : ℕ) (b : Bool)
    → is_used AccountState nodes i ≡ false
    → is_used AccountState (set_used AccountState nodes j b) i ≡ true
    → j ≡ i
flag_index nodes i j b before after = elim (Bool-cases (j == i)) [
  | inl same ↦ (==_iff j i).0 same
  | inr other ↦
      let apart : j ≢ i = λ e. ground arith in
      let still = is_used-set_used_other AccountState nodes j i b apart in
      absurd (ground (arith, still))
]

pub apart_lem : (a b : ℕ) → (a == b) ≡ false → a ≢ b
apart_lem a b other e = ground arith

no_both : (b : Bool) → b ≡ true → b ≡ false → ⊥
no_both b t f = cc

-- The flag of an account that is neither ready nor online is taken away.
unused-Sound :
    {p p' : Pool AccountState} {count : ℕ} (i : ℕ)
    → Sound p count
    → i < length p.all_elements
    → (data_at p.all_elements i).is_ready ≡ false
    → (data_at p.all_elements i).onoff ≡ offline
    → IsValid AccountState p'
    → p'.all_elements ≡ set_used AccountState p.all_elements i false
    → p'.base_id ≡ p.base_id
    → p'.total_size ≡ p.total_size
    → Sound p' count
unused-Sound {p} {p'} {count} i s within unready off valid elements base size = record {
  valid = valid;
  counted = omega (
    arith,
    s.counted,
    ap calc_online_count elements,
    calc_online_count-set_used p.all_elements i false within,
    off_line (is_used AccountState p.all_elements i),
  );
  named = λ j h.
      let used = still j (ap (λ e. is_used AccountState e j) (sym elements) ∙ h) in
      omega (arith, ap (λ d. d.keyid) (same_data j), s.named j used, base, size);
  ready = λ j h.
      let was = ap (λ d. d.is_ready) (sym (same_data j)) ∙ h in
      ap (λ e. is_used AccountState e j) elements ∙ elim (Bool-cases (i == j)) [
        | inl same ↦ absurd (
            no_both (data_at p.all_elements j).is_ready was
              (ap (λ k. (data_at p.all_elements k).is_ready) (sym ((==_iff i j).0 same)) ∙ unready))
        | inr other ↦
            is_used-set_used_other AccountState p.all_elements i j false (apart_lem i j other)
            ∙ s.ready j was
      ];
}
  where
    off_line :
        (b : Bool)
        → ◌≡◌ {A = ℕ} (if b && is_online (data_at p.all_elements i).onoff then 1 else 0) 0
    off_line true = rw off (unfold is_online in refl)
    off_line false = refl

    same_data : (j : ℕ) → data_at p'.all_elements j ≡ data_at p.all_elements j
    same_data j = ap (λ e. data_at e j) elements ∙ data_at-set_used p.all_elements i j false

    still :
        (j : ℕ)
        → is_used AccountState (set_used AccountState p.all_elements i false) j ≡ true
        → is_used AccountState p.all_elements j ≡ true
    still j h = elim (Bool-cases (i == j)) [
      | inl same ↦ absurd (
          no_both _ h (
            ap (is_used AccountState (set_used AccountState p.all_elements i false))
              (sym ((==_iff i j).0 same))
            ∙ is_used-set_used AccountState p.all_elements i false within))
      | inr other ↦
          sym (is_used-set_used_other AccountState p.all_elements i j false (apart_lem i j other))
          ∙ h
    ]

-- An account in use that is neither ready nor online can be given back: the release does not fail.
release-Sound :
    {p : Pool AccountState} {count : ℕ} (i : ℕ)
    → Sound p count
    → is_used AccountState p.all_elements i ≡ true
    → (data_at p.all_elements i).is_ready ≡ false
    → (data_at p.all_elements i).onoff ≡ offline
    → (p' : Pool AccountState) × (release AccountState p (data_at p.all_elements i).keyid ≡ some p')
      × Sound p' count
      × (is_used AccountState p'.all_elements i ≡ false)
release-Sound {p} {count} i s used unready off =
    let (p', done, gone, valid, _) = release-safe_alloc AccountState p i s.valid within used in
    let (elements, base, size) = release_parts AccountState p objid done in
    (
      p',
      ap (release AccountState p) (s.named i used) ∙ done,
      unused-Sound i s (used_within p.all_elements i used) unready off valid
          (elements
            ∙ ap (λ k. set_used AccountState p.all_elements (k - 1) false)
                (convert_id_back AccountState i s.valid within)
            ∙ ap (λ k. set_used AccountState p.all_elements k false) pred)
          base size,
      gone,
    )
  where
    within : i < p.total_size
    within = omega (arith, used_within p.all_elements i used, s.valid.elements)

    objid : ℕ
    objid = p.base_id + p.total_size - i

    pred : suc i - 1 ≡ i
    pred = omega arith

-- What going offline leaves of an account.
account-go_offline :
    (l : AccountList) (i now : ℕ)
    → InUse i l
    → account i (go_offline i now l) ≡ record (account i l) { onoff = offline; onoff_time = now }
unfolding go_offline
account-go_offline l i now used =
    data_at-set_data l.pool.all_elements i
      (record (account i l) { onoff = offline; onoff_time = now })
      (used_within l.pool.all_elements i used)

InUse-go_offline : (l : AccountList) (i j now : ℕ) → InUse j l → InUse j (go_offline i now l)
unfolding go_offline
InUse-go_offline l i j now used =
    InUse-store l i j (record (account i l) { onoff = offline; onoff_time = now }) used

same_place :
    (l : AccountList) (i now : ℕ)
    → ((go_offline i now l).pool.base_id ≡ l.pool.base_id)
      × ((go_offline i now l).pool.total_size ≡ l.pool.total_size)
unfolding go_offline
same_place l i now = (refl, refl)

-- An account in use that was marked as not ready goes offline and is given back.
give_back :
    (l : AccountList) (i now keyid : ℕ)
    → IsSound l
    → InUse i l
    → (account i l).is_ready ≡ false
    → (account i l).keyid ≡ keyid
    → (p' : Pool AccountState) × (release AccountState (go_offline i now l).pool keyid ≡ some p')
      × Sound p' (go_offline i now l).online_count
      × (is_used AccountState p'.all_elements i ≡ false)
give_back l i now keyid s used unready key =
    let after = account-go_offline l i now used in
    let (p', done, sound, gone) =
      release-Sound i (go_offline-IsSound l i now s used) (InUse-go_offline l i i now used)
        (ap (λ d. d.is_ready) after ∙ unready) (ap (λ d. d.onoff) after) in
    (
      p',
      ap (release AccountState (go_offline i now l).pool) (sym (ap (λ d. d.keyid) after ∙ key))
          ∙ done,
      sound,
      gone,
    )

module _ (city_hash64 : List ℕ → ℕ) where
  -- In a sound state, releasing an account does not fail, whether it is ready or not, since the pool
  -- accepts its key. The state is sound after it. The account is not in use any more if it was ready, and
  -- otherwise it is in use or not as before.
  pub release_internal-IsSound :
      (l : AccountList) (i now : ℕ)
      → IsSound l
      → (l' : AccountList) × (release_internal city_hash64 i now l ≡ some l')
        × IsSound l'
        × (is_used AccountState l'.pool.all_elements i ≡ (
            if (account i l).is_ready then false else is_used AccountState l.pool.all_elements i))
  unfolding release_internal
  release_internal-IsSound l i now s = elim (Bool-cases (account i l).is_ready) [
    | inl ready ↦
        let used = s.ready i ready in
        let st = record (account i l) { is_ready = false } in
        let l1 = record (store i st l) {
          uid_hash_map = erase (city_hash64 (account i l).uid) l.uid_hash_map;
          conn_id_map = erase_positive (account i l).connid l.conn_id_map;
          inner_uuid_map = erase_positive (account i l).inner_uuid l.inner_uuid_map;
        } in
        let stored =
          data_at-set_data l.pool.all_elements i st (used_within l.pool.all_elements i used) in
        let (p', done, sound, gone) =
          give_back l1 i now (account i l).keyid (same-Sound l i st s used refl refl)
            (InUse-store l i i st used) (ap (λ d. d.is_ready) stored) (ap (λ d. d.keyid) stored) in
        rw (ready, done) (_, refl, sound, gone)
    | inr other ↦ rw other (l, refl, s, refl)
  ]
