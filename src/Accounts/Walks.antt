-- ===== src/Accounts/Walks.antt =====
-- The lookups and the walks over the accounts keep them sound.
use netsystem.Base.{
  ℕ, zero, suc, ◌+◌, ◌≡◌, refl, sym, subst, ◌∙◌, inl, inr, Bool, true, false, ◌&&◌, Option, none,
  some, List, [], ◌∷◌, ◌++◌, length, leb, ◌==◌, if◌then◌else◌, if-both, if_cases, some_eq, if_some,
  >>=-eq-some, ◌>>=◌, lookup, put,
}
use netsystem.ObjectPool.{is_used, get}
use netsystem.Accounts.{
  AccountState, AccountList, Nodes, data_at, account, is_online, is_offline, go_offline, keep_alive,
  next_index, find_used, assert_ready, get_walked, get_mapped, get_by_conn_id, get_by_inner_uuid,
  get_by_uid, check_from, check_keep_alive, release_internal, on_found, offline_by_uid,
  keep_alive_by_uid, kick, kick_by_uid, kick_from, kick_offline_more_than, same_text,
}
use netsystem.Accounts.Sound.{IsSound, InUse, go_offline-IsSound, keep_alive-IsSound}
use netsystem.Accounts.Slots.{release_internal-IsSound}
use netsystem.Accounts.Fresh.{Given}

next_index_lem :
    (o : Option ℕ) {i : ℕ} → next_index o ≡ some i → (k : ℕ) × (o ≡ some k) × (suc k ≡ i)
unfolding next_index
next_index_lem none e = cc
next_index_lem (some k) e = (k, refl, some_eq e)

both_true : (a b : Bool) → (a && b) ≡ true → a ≡ true
both_true true b e = refl
both_true false b e = cc

-- What a walk finds is in use.
find_used-InUse :
    (test : AccountState → Bool) (nodes : Nodes) {i : ℕ}
    → find_used test nodes ≡ some i
    → is_used AccountState nodes i ≡ true
unfolding find_used is_used
find_used-InUse test [] e = cc
find_used-InUse test (node ∷ nodes) {i} e =
    elim (if_cases (node.used && test node.node_data) (some 0) (next_index (find_used test nodes))
      e) [
        | inl (found, is) ↦
            subst (λ k. is_used AccountState (node ∷ nodes) k ≡ true) (some_eq is)
              (both_true node.used (test node.node_data) found)
        | inr (other, later) ↦
            let (k, is, next) = next_index_lem (find_used test nodes) later in
            subst (λ k. is_used AccountState (node ∷ nodes) k ≡ true) next
              (find_used-InUse test nodes is)
      ]

-- A null pointer, or an account that is ready.
ReadyAt : Nodes → Option ℕ → Type 0
ReadyAt nodes none = Unit
ReadyAt nodes (some i) = (data_at nodes i).is_ready ≡ true

assert_ready-ReadyAt :
    (nodes : Nodes) (i : ℕ) (m : List (ℕ × ℕ)) {r : Option ℕ × List (ℕ × ℕ)}
    → assert_ready nodes i m ≡ some r
    → ReadyAt nodes r.0
unfolding assert_ready ReadyAt
assert_ready-ReadyAt nodes i m e =
    let (ready, is) = if_some (data_at nodes i).is_ready e in
    subst (λ r. ReadyAt nodes r.0) (some_eq is) ready

get_walked-ReadyAt :
    (key : ℕ) (found : Option ℕ) (nodes : Nodes) (m : List (ℕ × ℕ)) {r : Option ℕ × List (ℕ × ℕ)}
    → get_walked key found nodes m ≡ some r
    → ReadyAt nodes r.0
unfolding get_walked ReadyAt
get_walked-ReadyAt key none nodes m e = subst (λ r. ReadyAt nodes r.0) (some_eq e) tt
get_walked-ReadyAt key (some i) nodes m e = assert_ready-ReadyAt nodes i (put key i m) e

get_mapped-ReadyAt :
    (key : ℕ) (test : AccountState → Bool) (found : Option ℕ) (nodes : Nodes) (m : List (ℕ × ℕ))
    {r : Option ℕ × List (ℕ × ℕ)}
    → get_mapped key test found nodes m ≡ some r
    → ReadyAt nodes r.0
unfolding get_mapped
get_mapped-ReadyAt key test (some i) nodes m e = assert_ready-ReadyAt nodes i m e
get_mapped-ReadyAt key test none nodes m e = get_walked-ReadyAt key (find_used test nodes) nodes m e

ReadyAt-Given :
    (l : AccountList) (o : Option ℕ) → IsSound l → ReadyAt l.pool.all_elements o → Given o l
unfolding ReadyAt Given
ReadyAt-Given l none s h = tt
ReadyAt-Given l (some i) s h = s.ready i h

found_Given :
    (l : AccountList) (test : AccountState → Bool) (o : Option ℕ)
    → find_used test l.pool.all_elements ≡ o
    → Given o l
unfolding Given
found_Given l test none e = tt
found_Given l test (some i) e = find_used-InUse test l.pool.all_elements e

-- A result that is sound, with an account in use if it has one.
abbrev pub Kept : Option ℕ × AccountList → Type 0
Kept (o, l) = IsSound l × Given o l

pub get_by_conn_id-Kept :
    (conn_id : ℕ) (l : AccountList) {r : Option ℕ × AccountList}
    → get_by_conn_id conn_id l ≡ some r
    → IsSound l
    → Kept r
unfolding get_by_conn_id
get_by_conn_id-Kept conn_id l e s =
    let found = lookup conn_id l.conn_id_map in
    let nodes = l.pool.all_elements in
    let (r, got, is) =
      >>=-eq-some (get_mapped conn_id (λ st. conn_id == st.connid) found nodes l.conn_id_map) _ e in
    let ready =
      get_mapped-ReadyAt conn_id (λ st. conn_id == st.connid) found nodes l.conn_id_map got in
    subst Kept (some_eq is) (s, ReadyAt-Given (record l { conn_id_map = r.1 }) r.0 s ready)

pub get_by_inner_uuid-Kept :
    (inner_uuid : ℕ) (l : AccountList) {r : Option ℕ × AccountList}
    → get_by_inner_uuid inner_uuid l ≡ some r
    → IsSound l
    → Kept r
unfolding get_by_inner_uuid
get_by_inner_uuid-Kept inner_uuid l e s =
    let found = lookup inner_uuid l.inner_uuid_map in
    let nodes = l.pool.all_elements in
    let (r, got, is) =
      >>=-eq-some
        (get_mapped inner_uuid (λ st. inner_uuid == st.inner_uuid) found nodes l.inner_uuid_map) _
        e in
    let ready =
      get_mapped-ReadyAt inner_uuid (λ st. inner_uuid == st.inner_uuid) found nodes l.inner_uuid_map
        got in
    subst Kept (some_eq is) (s, ReadyAt-Given (record l { inner_uuid_map = r.1 }) r.0 s ready)

check_from-IsSound :
    (n i tolerance now : ℕ) (l : AccountList) → IsSound l → IsSound (check_from n i tolerance now l)
unfolding check_from
check_from-IsSound zero i tolerance now l s = s
check_from-IsSound (suc n) i tolerance now l s =
    let used = is_used AccountState l.pool.all_elements i in
    let on = is_online (account i l).onoff in
    let late = leb ((account i l).onoff_time + tolerance) now in
    check_from-IsSound n (suc i) tolerance now
      (if used && on && late then go_offline i now l else l)
      (if-both IsSound (used && on && late)
        (λ lost.
          go_offline-IsSound l i now s (both_true used on (both_true (used && on) late lost)))
        (λ _. s))

pub check_keep_alive-IsSound :
    (tolerance now : ℕ) (l : AccountList) → IsSound l → IsSound (check_keep_alive tolerance now l)
unfolding check_keep_alive
check_keep_alive-IsSound tolerance now l s =
    check_from-IsSound l.pool.total_size 0 tolerance now l s

module _ (city_hash64 : List ℕ → ℕ) where
  pub get_by_uid-Kept :
      (uid : List ℕ) (l : AccountList) {r : Option ℕ × AccountList}
      → get_by_uid city_hash64 uid l ≡ some r
      → IsSound l
      → Kept r
  unfolding get_by_uid
  get_by_uid-Kept uid l e s =
      let found = lookup (city_hash64 uid) l.uid_hash_map in
      let nodes = l.pool.all_elements in
      let (r, got, is) =
        >>=-eq-some
          (get_mapped (city_hash64 uid) (λ st. same_text uid st.uid) found nodes l.uid_hash_map) _
          e in
      let ready =
        get_mapped-ReadyAt (city_hash64 uid) (λ st. same_text uid st.uid) found nodes l.uid_hash_map
          got in
      subst Kept (some_eq is) (s, ReadyAt-Given (record l { uid_hash_map = r.1 }) r.0 s ready)

  -- A call on the account that was found, if one was.
  on_found-IsSound :
      (f : ℕ → AccountList → Option AccountList) (r : Option ℕ × AccountList)
      {r' : Option ℕ × AccountList}
      → ((i : ℕ) (l l' : AccountList) → f i l ≡ some l' → IsSound l → InUse i l → IsSound l')
      → on_found city_hash64 f r ≡ some r'
      → Kept r
      → IsSound r'.1
  unfolding on_found Given
  on_found-IsSound f (none, l) keeps e (s, _) = subst (λ r. IsSound r.1) (some_eq e) s
  on_found-IsSound f (some i, l) keeps e (s, used) =
      let (l', done, is) = >>=-eq-some (f i l) _ e in
      subst (λ r. IsSound r.1) (some_eq is) (keeps i l l' done s used)

  pub release_internal-keeps :
      (now i : ℕ) (l l' : AccountList)
      → release_internal city_hash64 i now l ≡ some l'
      → IsSound l
      → IsSound l'
  release_internal-keeps now i l l' e s =
      let (l1, done, sound, _) = release_internal-IsSound city_hash64 l i now s in
      subst IsSound (some_eq (sym done ∙ e)) sound

  pub offline_by_uid-IsSound :
      (uid : List ℕ) (now : ℕ) (l : AccountList) {r : Option ℕ × AccountList}
      → offline_by_uid city_hash64 uid now l ≡ some r
      → IsSound l
      → IsSound r.1
  unfolding offline_by_uid
  offline_by_uid-IsSound uid now l e s =
      on_found-IsSound (λ i l. some (go_offline i now l))
        (find_used (λ st. same_text st.uid uid) l.pool.all_elements, l)
        (λ i l l' is s used. subst IsSound (some_eq is) (go_offline-IsSound l i now s used)) e
        (s, found_Given l (λ st. same_text st.uid uid) _ refl)

  pub keep_alive_by_uid-IsSound :
      (uid : List ℕ) (now : ℕ) (l : AccountList) {r : Option ℕ × AccountList}
      → keep_alive_by_uid city_hash64 uid now l ≡ some r
      → IsSound l
      → IsSound r.1
  unfolding keep_alive_by_uid
  keep_alive_by_uid-IsSound uid now l e s =
      let (found, got, is) = >>=-eq-some (get_by_uid city_hash64 uid l) _ e in
      on_found-IsSound (λ i l. some (keep_alive i now l)) found
        (λ i l l' is s used. subst IsSound (some_eq is) (keep_alive-IsSound l i now s used)) is
        (get_by_uid-Kept uid l got s)

  pub kick-IsSound :
      (objid now : ℕ) (l : AccountList) {l' : AccountList}
      → kick city_hash64 objid now l ≡ some l'
      → IsSound l
      → IsSound l'
  unfolding kick
  kick-IsSound objid now l {l'} e s =
      let (i, _, is) = >>=-eq-some (get AccountState l.pool objid) _ e in
      release_internal-keeps now i l l' is s

  pub kick_by_uid-IsSound :
      (uid : List ℕ) (now : ℕ) (l : AccountList) {l' : AccountList}
      → kick_by_uid city_hash64 uid now l ≡ some l'
      → IsSound l
      → IsSound l'
  unfolding kick_by_uid
  kick_by_uid-IsSound uid now l e s =
      let (r, kicked, is) =
        >>=-eq-some
          (get_by_uid city_hash64 uid l
            >>= on_found city_hash64 (λ i l. release_internal city_hash64 i now l))
          _ e in
      let (found, got, done) = >>=-eq-some (get_by_uid city_hash64 uid l) _ kicked in
      subst IsSound (some_eq is) (
        on_found-IsSound (λ i l. release_internal city_hash64 i now l) found
          (λ i l l' done s used. release_internal-keeps now i l l' done s) done
          (get_by_uid-Kept uid l got s))

  kick_from-IsSound :
      (n i tolerance kick_num_max now : ℕ) (kicked : List ℕ) (l : AccountList)
      {r : List ℕ × AccountList}
      → kick_from city_hash64 n i tolerance kick_num_max now kicked l ≡ some r
      → IsSound l
      → IsSound r.1
  unfolding kick_from
  kick_from-IsSound zero i tolerance kick_num_max now kicked l e s =
      subst (λ r. IsSound r.1) (some_eq e) s
  kick_from-IsSound (suc n) i tolerance kick_num_max now kicked l e s =
      let late =
        is_used AccountState l.pool.all_elements i
        && is_offline (account i l).onoff
        && leb ((account i l).onoff_time + tolerance) now in
      let kicked' = if late then kicked ++ (i ∷ []) else kicked in
      let (l1, done, rest) =
        >>=-eq-some (if late then release_internal city_hash64 i now l else some l) _ e in
      let sound : IsSound l1 =
        elim (if_cases late (release_internal city_hash64 i now l) (some l) done) [
          | inl (_, is) ↦ release_internal-keeps now i l l1 is s
          | inr (_, is) ↦ subst IsSound (some_eq is) s
        ] in
      elim (if_cases (late && leb kick_num_max (length kicked + 1)) (some (kicked', l1))
        (kick_from city_hash64 n (suc i) tolerance kick_num_max now kicked' l1) rest) [
          | inl (_, is) ↦ subst (λ r. IsSound r.1) (some_eq is) sound
          | inr (_, is) ↦ kick_from-IsSound n (suc i) tolerance kick_num_max now kicked' l1 is sound
        ]

  pub kick_offline_more_than-IsSound :
      (tolerance kick_num_max now : ℕ) (kicked : List ℕ) (l : AccountList)
      {r : List ℕ × AccountList}
      → kick_offline_more_than city_hash64 tolerance kick_num_max now kicked l ≡ some r
      → IsSound l
      → IsSound r.1
  unfolding kick_offline_more_than
  kick_offline_more_than-IsSound tolerance kick_num_max now kicked l e s =
      kick_from-IsSound l.pool.total_size 0 tolerance kick_num_max now kicked l e s
