-- ===== src/Accounts/Logins.antt =====
-- Registering accounts keeps them sound.
use netsystem.Base.{
  ℕ, ◌≡◌, refl, sym, ap, subst, ◌∙◌, inl, inr, true, ◌||◌, Option, none, some, List, length, take,
  ltb, leb, ◌==◌, if_cases, some_eq, >>=-eq-some,
}
use netsystem.Accounts.{
  online, AccountState, AccountList, account, store, data_at, set_data, alloc, go_online,
  confirm_account_is_ready, get_by_uid,
}
use netsystem.Accounts.Count.{is_used-set_data, data_at-set_data}
use netsystem.Accounts.Sound.{
  used_within, IsSound, InUse, InUse-store, touch-IsSound, confirm_account_is_ready-IsSound,
}
use netsystem.Accounts.Fresh.{Given, alloc-IsSound}
use netsystem.Accounts.Walks.{Kept, get_by_uid-Kept}
use netsystem.Accounts.Manager.{
  RegResult, invalid_uid, bind_uid_overflow, conflict, conflict_too_many_times,
  main_account_is_not_ready, duplicate_registration, ok, Login, Registered, bind_account,
  register_new, register_conflict, register_checked, register,
}

-- The accounts after `Register`.
abbrev pub after : Registered → AccountList
after (result, o, l) = l

-- The account that was handed out, if one was, is ready and online with what was given.
abbrev pub Bound : Login → ℕ → Registered → Type 0
Bound login now (result, none, l) = Unit
Bound login now (result, some i, l) =
    InUse i l
    × ((account i l).is_ready ≡ true)
    × ((account i l).onoff ≡ online)
    × ((account i l).onoff_time ≡ now)
    × ((account i l).uid ≡ take 35 login.uid)
    × ((account i l).connid ≡ login.connid)
    × ((account i l).inner_uuid ≡ login.inner_uuid)

abbrev Good : Login → ℕ → Registered → Type 0
Good login now r = IsSound (after r) × Bound login now r

-- What the confirmation of an account in use stores.
confirmed :
    (l : AccountList) (i conn_id inner_uuid conn_impl now : ℕ)
    → InUse i l
    → account i (confirm_account_is_ready i conn_id inner_uuid conn_impl now l)
      ≡ record (account i l) {
        connid = conn_id;
        inner_uuid = inner_uuid;
        conn_impl = conn_impl;
        onoff = online;
        onoff_time = now;
        is_ready = true;
      }
unfolding confirm_account_is_ready go_online
confirmed l i conn_id inner_uuid conn_impl now used =
    let st = record (account i l) {
      connid = conn_id;
      inner_uuid = inner_uuid;
      conn_impl = conn_impl;
      onoff = online;
      onoff_time = now;
    } in
    let made_ready : AccountState → AccountState = λ d. record d { is_ready = true } in
    let nodes = set_data l.pool.all_elements i st in
    let used' = InUse-store l i i st used in
    data_at-set_data nodes i (record (data_at nodes i) { is_ready = true })
      (used_within nodes i used')
    ∙ ap made_ready
        (data_at-set_data l.pool.all_elements i st (used_within l.pool.all_elements i used))

InUse-confirm :
    (l : AccountList) (i conn_id inner_uuid conn_impl now : ℕ)
    → InUse i l
    → InUse i (confirm_account_is_ready i conn_id inner_uuid conn_impl now l)
unfolding confirm_account_is_ready go_online
InUse-confirm l i conn_id inner_uuid conn_impl now used =
    let st = record (account i l) {
      connid = conn_id;
      inner_uuid = inner_uuid;
      conn_impl = conn_impl;
      onoff = online;
      onoff_time = now;
    } in
    let nodes = set_data l.pool.all_elements i st in
    is_used-set_data nodes i i (record (data_at nodes i) { is_ready = true })
    ∙ is_used-set_data l.pool.all_elements i i st
    ∙ used

bind_account-Good :
    (login : Login) (now : ℕ) (result : RegResult) (i : ℕ) (l : AccountList)
    → IsSound l
    → InUse i l
    → Good login now (bind_account login now result i l)
unfolding bind_account
bind_account-Good login now result i l s used =
    let st = record (account i l) {
      uid = take 35 login.uid;
      nick = take 35 login.nick;
      pwd = take 39 login.pwd;
    } in
    let l1 = store i st l in
    let used1 = InUse-store l i i st used in
    let confirm = confirmed l1 i login.connid login.inner_uuid login.conn_impl now used1 in
    let stored =
      data_at-set_data l.pool.all_elements i st (used_within l.pool.all_elements i used) in
    (
      confirm_account_is_ready-IsSound l1 i login.connid login.inner_uuid login.conn_impl now
          (touch-IsSound l i st s refl refl refl) used1,
      (
        InUse-confirm l1 i login.connid login.inner_uuid login.conn_impl now used1,
        ap (λ d. d.is_ready) confirm,
        ap (λ d. d.onoff) confirm,
        ap (λ d. d.onoff_time) confirm,
        ap (λ d. d.uid) confirm ∙ ap (λ d. d.uid) stored,
        ap (λ d. d.connid) confirm,
        ap (λ d. d.inner_uuid) confirm,
      ),
    )

register_new-Good :
    (login : Login) (now : ℕ) (r : Option ℕ × AccountList)
    → Kept r
    → Good login now (register_new login now r)
unfolding register_new Given
register_new-Good login now (none, l) (s, _) = (s, tt)
register_new-Good login now (some i, l) (s, used) = bind_account-Good login now ok i l s used

register_conflict-Good :
    (login : Login) (now c : ℕ) (r : Option ℕ × AccountList) {r' : Registered}
    → register_conflict login now c r ≡ some r'
    → Kept r
    → Good login now r'
unfolding register_conflict Given
register_conflict-Good login now c (none, l) e (s, _) = subst (Good login now) (some_eq e) (s, tt)
register_conflict-Good login now c (some i, l) e (s, used) = elim (if_cases (i == c) none _ e) [
  | inl (_, is) ↦ cc
  | inr (_, is) ↦
      let st = record (account i l) { conflict_keyid = (account c l).keyid } in
      let l1 = store i st l in
      let st' = record (account c l1) { conflict_keyid = (account i l1).keyid } in
      subst (Good login now) (some_eq is) (
        bind_account-Good login now conflict i (store c st' l1)
          (touch-IsSound l1 c st' (touch-IsSound l i st s refl refl refl) refl refl refl)
          (InUse-store l1 c i st' (InUse-store l i i st used)))
]

register_checked-Good :
    (login : Login) (now : ℕ) (r : Option ℕ × AccountList) {r' : Registered}
    → register_checked login now r ≡ some r'
    → Kept r
    → Good login now r'
unfolding register_checked Given
register_checked-Good login now (none, l) e (s, _) =
    let (o, l1, done, sound, given, _) = alloc-IsSound l s in
    let (r, got, is) = >>=-eq-some (alloc l) _ e in
    let same = some_eq (sym done ∙ got) in
    subst (Good login now) (some_eq is)
      (register_new-Good login now r (subst Kept same (sound, given)))
register_checked-Good login now (some c, l) e (s, used) =
    elim (if_cases (ltb 0 (account c l).conflict_keyid) (some (conflict_too_many_times, none, l)) _
      e) [
        | inl (_, is) ↦ subst (Good login now) (some_eq is) (s, tt)
        | inr (_, e1) ↦
            elim (if_cases ((account c l).ext_data == 0) (some (main_account_is_not_ready, none, l))
              _ e1) [
                | inl (_, is) ↦ subst (Good login now) (some_eq is) (s, tt)
                | inr (_, e2) ↦
                    elim (if_cases (login.connid == (account c l).connid)
                      (some (bind_account login now duplicate_registration c l)) _ e2) [
                        | inl (_, is) ↦
                            subst (Good login now) (some_eq is)
                              (bind_account-Good login now duplicate_registration c l s used)
                        | inr (_, e3) ↦
                            let (o, l1, done, sound, given, _) = alloc-IsSound l s in
                            let (r, got, is) = >>=-eq-some (alloc l) _ e3 in
                            let same = some_eq (sym done ∙ got) in
                            register_conflict-Good login now c r is (subst Kept same (sound, given))
                      ]
              ]
      ]

module _ (city_hash64 : List ℕ → ℕ) where
  pub register-Good :
      (login : Login) (now : ℕ) (l : AccountList) {r : Registered}
      → register city_hash64 login now l ≡ some r
      → IsSound l
      → Good login now r
  unfolding register
  register-Good login now l e s =
      elim (if_cases (0 == length login.uid) (some (invalid_uid, none, l)) _ e) [
        | inl (_, is) ↦ subst (Good login now) (some_eq is) (s, tt)
        | inr (_, e1) ↦
            elim (if_cases
              (leb 36 (length login.uid) || leb 36 (length login.nick) || leb 40 (length login.pwd))
              (some (bind_uid_overflow, none, l)) _ e1) [
                | inl (_, is) ↦ subst (Good login now) (some_eq is) (s, tt)
                | inr (_, e2) ↦
                    let (r, got, is) = >>=-eq-some (get_by_uid city_hash64 login.uid l) _ e2 in
                    register_checked-Good login now r is
                      (get_by_uid-Kept city_hash64 login.uid l got s)
              ]
      ]
