-- ===== src/Accounts/Leave.antt =====
-- Taking accounts out keeps them sound.
use netsystem.Base.{
  ℕ, zero, suc, ◌≡◌, refl, subst, inl, inr, ◌&&◌, some, List, ltb, ◌==◌, if◌then◌else◌, if_cases,
  some_eq, >>=-eq-some,
}
use netsystem.ObjectPool.{is_used, get}
use netsystem.Accounts.{AccountState, AccountList, account, store}
use netsystem.Accounts.Sound.{IsSound, touch-IsSound}
use netsystem.Accounts.Walks.{release_internal-keeps}
use netsystem.Accounts.Manager.{clear_conflict, unregister, unregister_from, unregister_by_conn_id}

clear_conflict-IsSound :
    (i : ℕ) (l : AccountList) {l' : AccountList}
    → clear_conflict i l ≡ some l'
    → IsSound l
    → IsSound l'
unfolding clear_conflict
clear_conflict-IsSound i l e s = elim (if_cases (ltb 0 (account i l).conflict_keyid) _ (some l) e) [
  | inl (_, is) ↦
      let (c, _, done) = >>=-eq-some (get AccountState l.pool (account i l).conflict_keyid) _ is in
      let st = record (account i l) { conflict_keyid = 0 } in
      let l1 = store i st l in
      subst IsSound (some_eq done) (
        touch-IsSound l1 c (record (account c l1) { conflict_keyid = 0 })
          (touch-IsSound l i st s refl refl refl) refl refl refl)
  | inr (_, is) ↦ subst IsSound (some_eq is) s
]

module _ (city_hash64 : List ℕ → ℕ) where
  pub unregister-IsSound :
      (i now : ℕ) (l : AccountList) {l' : AccountList}
      → unregister city_hash64 i now l ≡ some l'
      → IsSound l
      → IsSound l'
  unfolding unregister
  unregister-IsSound i now l {l'} e s = elim (if_cases (account i l).is_ready _ (some l) e) [
    | inl (_, is) ↦
        let (l1, cleared, done) = >>=-eq-some (clear_conflict i l) _ is in
        release_internal-keeps city_hash64 now i l1 l' done (clear_conflict-IsSound i l cleared s)
    | inr (_, is) ↦ subst IsSound (some_eq is) s
  ]

  unregister_from-IsSound :
      (n i conn_id now : ℕ) (l : AccountList) {l' : AccountList}
      → unregister_from city_hash64 n i conn_id now l ≡ some l'
      → IsSound l
      → IsSound l'
  unfolding unregister_from
  unregister_from-IsSound zero i conn_id now l e s = subst IsSound (some_eq e) s
  unregister_from-IsSound (suc n) i conn_id now l e s =
      let here = is_used AccountState l.pool.all_elements i && conn_id == (account i l).connid in
      let (l1, done, rest) =
        >>=-eq-some (if here then unregister city_hash64 i now l else some l) _ e in
      let sound : IsSound l1 = elim (if_cases here (unregister city_hash64 i now l) (some l) done) [
        | inl (_, is) ↦ unregister-IsSound i now l is s
        | inr (_, is) ↦ subst IsSound (some_eq is) s
      ] in
      unregister_from-IsSound n (suc i) conn_id now l1 rest sound

  pub unregister_by_conn_id-IsSound :
      (conn_id now : ℕ) (l : AccountList) {l' : AccountList}
      → unregister_by_conn_id city_hash64 conn_id now l ≡ some l'
      → IsSound l
      → IsSound l'
  unfolding unregister_by_conn_id
  unregister_by_conn_id-IsSound conn_id now l e s =
      unregister_from-IsSound l.pool.total_size 0 conn_id now l e s
