-- ===== src/Accounts/Sound.antt =====
-- What holds of the accounts between two calls, and that each operation keeps it.
use netsystem.Base.{
  ℕ, zero, suc, ◌+◌, ◌-◌, ◌≤◌, ◌<◌, ◌^◌, ◌≡◌, ◌≢◌, refl, sym, ap, subst, ◌∙◌, inl, inr, Bool, true,
  false, ◌&&◌, [], ◌∷◌, length, ◌==◌, if◌then◌else◌, arith, Bool-cases, if-both, ==_iff, sub_size,
}
use netsystem.ObjectPool.{Pool, is_used}
use netsystem.ObjectPool.Partition.{IsValid}
use netsystem.Accounts.{
  online, offline, AccountState, AccountList, Nodes, data_at, set_data, account, store, is_online,
  calc_online_count, go_online, go_offline, keep_alive, confirm_account_is_ready,
}
use netsystem.Accounts.Count.{
  online_at, online_as, length-set_data, is_used-set_data, used_num-set_data, data_at-set_data,
  data_at-set_data_other, calc_online_count-set_data, calc_online_count-set_data_same,
  field-set_data, online_at-le-calc_online_count, calc_online_count-le-length,
}

-- The pool is valid, the count is exact, each account in use has its object id for a key, and one that
-- is ready is in use.
pub record Sound (p : Pool AccountState) (count : ℕ) : Type 0 where
  pub valid : IsValid AccountState p
  pub counted : count ≡ calc_online_count p.all_elements
  pub named :
      (i : ℕ)
      → is_used AccountState p.all_elements i ≡ true
      → (data_at p.all_elements i).keyid ≡ p.base_id + p.total_size - i
  pub ready :
      (i : ℕ)
      → (data_at p.all_elements i).is_ready ≡ true
      → is_used AccountState p.all_elements i ≡ true

abbrev pub IsSound : AccountList → Type 0
IsSound l = Sound l.pool l.online_count

abbrev pub InUse : ℕ → AccountList → Type 0
InUse i l = is_used AccountState l.pool.all_elements i ≡ true

pub used_within : (nodes : Nodes) (i : ℕ) → is_used AccountState nodes i ≡ true → i < length nodes
unfolding is_used
used_within [] i e = absurd (ground arith)
used_within (node ∷ nodes) zero e = omega arith
used_within (node ∷ nodes) (suc i) e = omega (arith, used_within nodes i e)

pub set_data-IsValid :
    {p : Pool AccountState} (i : ℕ) (st : AccountState)
    → IsValid AccountState p
    → IsValid AccountState (record p { all_elements = set_data p.all_elements i st })
set_data-IsValid {p} i st v = record {
  elements = length-set_data p.all_elements i st ∙ v.elements;
  stack = v.stack;
  unused = v.unused;
  small = v.small;
  either = λ j h. rw (is_used-set_data p.all_elements i j st) (v.either j h);
  inside = v.inside;
  balance = omega (arith, v.balance, used_num-set_data p.all_elements i st);
  positive = v.positive;
}

-- An account in use is stored again with its key, and the count follows.
store-Sound :
    {p : Pool AccountState} {count : ℕ} (i : ℕ) (st : AccountState) (count' : ℕ)
    → Sound p count
    → is_used AccountState p.all_elements i ≡ true
    → st.keyid ≡ (data_at p.all_elements i).keyid
    → count' + online_at p.all_elements i ≡ count + online_as p.all_elements i st.onoff
    → Sound (record p { all_elements = set_data p.all_elements i st }) count'
store-Sound {p} {count} i st count' s used key balance = record {
  valid = set_data-IsValid i st s.valid;
  counted =
      omega (arith, s.counted, balance, calc_online_count-set_data p.all_elements i st within);
  named = λ j h. elim (Bool-cases (i == j)) [
    | inl same ↦
        subst (λ k. (data_at (set_data p.all_elements i st) k).keyid ≡ p.base_id + p.total_size - k)
          ((==_iff i j).0 same)
          (ap (λ d. d.keyid) (data_at-set_data p.all_elements i st within) ∙ key ∙ s.named i used)
    | inr other ↦
        ap (λ d. d.keyid) (data_at-set_data_other p.all_elements i j st (apart i j other))
        ∙ s.named j (sym (is_used-set_data p.all_elements i j st) ∙ h)
  ];
  ready = λ j h. is_used-set_data p.all_elements i j st ∙ elim (Bool-cases (i == j)) [
    | inl same ↦
        subst (λ k. is_used AccountState p.all_elements k ≡ true) ((==_iff i j).0 same) used
    | inr other ↦ s.ready j (
        ap (λ d. d.is_ready) (sym (data_at-set_data_other p.all_elements i j st (apart i j other)))
        ∙ h)
  ];
}
  where
    within : i < length p.all_elements
    within = used_within p.all_elements i used

    apart : (a b : ℕ) → (a == b) ≡ false → a ≢ b
    apart a b other e = ground arith

-- An account, in use or not, is stored with the same key, readiness and state of the connection.
pub touch-IsSound :
    (l : AccountList) (i : ℕ) (st : AccountState)
    → IsSound l
    → st.keyid ≡ (account i l).keyid
    → st.is_ready ≡ (account i l).is_ready
    → st.onoff ≡ (account i l).onoff
    → IsSound (store i st l)
touch-IsSound l i st s key ready same =
    let nodes = l.pool.all_elements in
    record {
      valid = set_data-IsValid i st s.valid;
      counted = s.counted ∙ sym (calc_online_count-set_data_same nodes i st same);
      named = λ j h.
          field-set_data (λ d. d.keyid) nodes i j st key
          ∙ s.named j (sym (is_used-set_data nodes i j st) ∙ h);
      ready = λ j h.
          is_used-set_data nodes i j st
          ∙ s.ready j (sym (field-set_data (λ d. d.is_ready) nodes i j st ready) ∙ h);
    }

-- An account in use is stored with the same state of the connection.
pub same-Sound :
    (l : AccountList) (i : ℕ) (st : AccountState)
    → IsSound l
    → InUse i l
    → st.keyid ≡ (account i l).keyid
    → st.onoff ≡ (account i l).onoff
    → IsSound (store i st l)
same-Sound l i st s used key same =
    store-Sound i st l.online_count s used key
      (ap (λ o. l.online_count + online_as l.pool.all_elements i o) (sym same))

pub go_online-IsSound :
    (l : AccountList) (i conn_id inner_uuid conn_impl now : ℕ)
    → IsSound l
    → InUse i l
    → IsSound (go_online i conn_id inner_uuid conn_impl now l)
unfolding go_online
go_online-IsSound l i conn_id inner_uuid conn_impl now s used =
    let st = record (account i l) {
      connid = conn_id;
      inner_uuid = inner_uuid;
      conn_impl = conn_impl;
      onoff = online;
      onoff_time = now;
    } in
    store-Sound i st (calc_online_count (set_data l.pool.all_elements i st)) s used refl (
      omega (
        arith,
        s.counted,
        calc_online_count-set_data l.pool.all_elements i st
            (used_within l.pool.all_elements i used),
      ))

-- how the count falls when an account goes offline
fewer :
    (count : ℕ) (b used : Bool)
    → count < 2 ^ 64
    → used ≡ true
    → (if used && b then 1 else 0) ≤ count
    → (if b then sub_size count 1 else count) + (if used && b then 1 else 0) ≡ count
fewer count b false small is le = absurd (ground arith)
fewer count true true small is le = omega arith
fewer count false true small is le = omega arith

small_count : {p : Pool AccountState} {count : ℕ} → Sound p count → count < 2 ^ 64
small_count {p} s =
    omega (
      arith,
      s.counted,
      calc_online_count-le-length p.all_elements,
      s.valid.elements,
      s.valid.small,
    )

pub go_offline-IsSound :
    (l : AccountList) (i now : ℕ) → IsSound l → InUse i l → IsSound (go_offline i now l)
unfolding go_offline
go_offline-IsSound l i now s used =
    let nodes = l.pool.all_elements in
    let on = is_online (account i l).onoff in
    let count = if on then sub_size l.online_count 1 else l.online_count in
    let falls : count + online_at nodes i ≡ l.online_count =
      fewer l.online_count on (is_used AccountState nodes i) (small_count s) used
        (omega (arith, s.counted, online_at-le-calc_online_count nodes i)) in
    store-Sound i (record (account i l) { onoff = offline; onoff_time = now }) count s used refl
      (omega (arith, falls, not_online (is_used AccountState nodes i)))
  where
    not_online : (b : Bool) → ◌≡◌ {A = ℕ} (if b && is_online offline then 1 else 0) 0
    not_online true = unfold is_online in refl
    not_online false = refl

pub keep_alive-IsSound :
    (l : AccountList) (i now : ℕ) → IsSound l → InUse i l → IsSound (keep_alive i now l)
unfolding keep_alive
keep_alive-IsSound l i now s used =
    if-both IsSound (is_online (account i l).onoff)
      (λ _. same-Sound l i (record (account i l) { onoff_time = now }) s used refl refl) (λ _. s)

pub InUse-store :
    (l : AccountList) (i j : ℕ) (st : AccountState) → InUse j l → InUse j (store i st l)
InUse-store l i j st used = is_used-set_data l.pool.all_elements i j st ∙ used

pub confirm_account_is_ready-IsSound :
    (l : AccountList) (i conn_id inner_uuid conn_impl now : ℕ)
    → IsSound l
    → InUse i l
    → IsSound (confirm_account_is_ready i conn_id inner_uuid conn_impl now l)
unfolding confirm_account_is_ready
confirm_account_is_ready-IsSound l i conn_id inner_uuid conn_impl now s used =
    let l1 = go_online i conn_id inner_uuid conn_impl now l in
    same-Sound l1 i (record (account i l1) { is_ready = true })
      (go_online-IsSound l i conn_id inner_uuid conn_impl now s used)
      (unfold go_online in InUse-store l i i _ used) refl refl
