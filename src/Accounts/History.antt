-- ===== src/Accounts/History.antt =====
-- Any sequence of calls to the account manager and its list.
use netsystem.Base.{
  Bool, ℕ, ◌+◌, ◌<◌, ◌^◌, ◌≡◌, refl, sym, true, false, Option, some, List, arith, zero, suc,
}
use netsystem.ObjectPool.{new_nodes, safe_init}
use netsystem.ObjectPool.Init.{safe_init-IsValid, is_used-new_nodes}
use netsystem.Accounts.{
  AccountState, AccountList, data_at, account, store, blank, new_list, go_online, go_offline,
  keep_alive, get_by_conn_id, get_by_inner_uuid, get_by_uid, check_keep_alive, offline_by_uid,
  keep_alive_by_uid, kick, kick_by_uid, kick_offline_more_than, calc_online_count,
}
use netsystem.Accounts.Manager.{Login, Registered, register, unregister, unregister_by_conn_id}
use netsystem.Accounts.Sound.{
  IsSound, InUse, touch-IsSound, go_online-IsSound, go_offline-IsSound, keep_alive-IsSound,
}
use netsystem.Accounts.Walks.{
  get_by_conn_id-Kept, get_by_inner_uuid-Kept, get_by_uid-Kept, check_keep_alive-IsSound,
  offline_by_uid-IsSound, keep_alive_by_uid-IsSound, kick-IsSound, kick_by_uid-IsSound,
  kick_offline_more_than-IsSound,
}
use netsystem.Accounts.Logins.{after, register-Good}
use netsystem.Accounts.Leave.{unregister-IsSound, unregister_by_conn_id-IsSound}

no_both : (b : Bool) → b ≡ true → b ≡ false → ⊥
no_both b t f = ground arith

abbrev NoneReady : (ℕ → AccountState) → Type 0
NoneReady memory = (i : ℕ) → (memory i).is_ready ≡ false

none_online :
    (memory : ℕ → AccountState) (k n : ℕ)
    → calc_online_count (new_nodes AccountState memory k n) ≡ 0
unfolding calc_online_count new_nodes
none_online memory k zero = refl
none_online memory k (suc n) = omega (arith, none_online memory (suc k) n)

none_ready :
    (memory : ℕ → AccountState) (k n i : ℕ)
    → NoneReady memory
    → (data_at (new_nodes AccountState memory k n) i).is_ready ≡ false
unfolding data_at blank new_nodes
none_ready memory k zero i none = refl
none_ready memory k (suc n) zero none = none k
none_ready memory k (suc n) (suc i) none = none_ready memory (suc k) n i none

new_list-IsSound :
    (memory : ℕ → AccountState) (reserve : ℕ)
    → NoneReady memory
    → 1 + 600000 + reserve < 2 ^ 32
    → IsSound (new_list memory reserve)
unfolding new_list safe_init
new_list-IsSound memory reserve none small = record {
  valid = unfold safe_init in safe_init-IsValid AccountState memory 600000 reserve small;
  counted = sym (none_online memory 0 reserve);
  named = λ i h. absurd (no_both _ h (is_used-new_nodes AccountState memory 0 reserve i));
  ready = λ i h. absurd (no_both _ h (none_ready memory 0 reserve i none));
}

module _ (city_hash64 : List ℕ → ℕ) (memory : ℕ → AccountState) where
  -- The calls up to now, from a list with room for `reserve` accounts. The calls on an account are made
  -- for one in use. The extension data of an account are set by the code that uses the list.
  pub data Reach (reserve : ℕ) : AccountList → Type 0 where
    start : Reach reserve (new_list memory reserve)
    registers :
        {l : AccountList} {r : Registered} (login : Login) (now : ℕ)
        → Reach reserve l
        → register city_hash64 login now l ≡ some r
        → Reach reserve (after r)
    extends :
        {l : AccountList} (i ext : ℕ)
        → Reach reserve l
        → Reach reserve (store i (record (account i l) { ext_data = ext }) l)
    unregisters :
        {l l' : AccountList} (i now : ℕ)
        → Reach reserve l
        → unregister city_hash64 i now l ≡ some l'
        → Reach reserve l'
    unregisters_by_conn_id :
        {l l' : AccountList} (conn_id now : ℕ)
        → Reach reserve l
        → unregister_by_conn_id city_hash64 conn_id now l ≡ some l'
        → Reach reserve l'
    goes_online :
        {l : AccountList} (i conn_id inner_uuid conn_impl now : ℕ)
        → Reach reserve l
        → InUse i l
        → Reach reserve (go_online i conn_id inner_uuid conn_impl now l)
    goes_offline :
        {l : AccountList} (i now : ℕ)
        → Reach reserve l
        → InUse i l
        → Reach reserve (go_offline i now l)
    goes_offline_by_uid :
        {l : AccountList} {r : Option ℕ × AccountList} (uid : List ℕ) (now : ℕ)
        → Reach reserve l
        → offline_by_uid city_hash64 uid now l ≡ some r
        → Reach reserve r.1
    keeps_alive :
        {l : AccountList} (i now : ℕ)
        → Reach reserve l
        → InUse i l
        → Reach reserve (keep_alive i now l)
    keeps_alive_by_uid :
        {l : AccountList} {r : Option ℕ × AccountList} (uid : List ℕ) (now : ℕ)
        → Reach reserve l
        → keep_alive_by_uid city_hash64 uid now l ≡ some r
        → Reach reserve r.1
    checks :
        {l : AccountList} (tolerance now : ℕ)
        → Reach reserve l
        → Reach reserve (check_keep_alive tolerance now l)
    gets_by_conn_id :
        {l : AccountList} {r : Option ℕ × AccountList} (conn_id : ℕ)
        → Reach reserve l
        → get_by_conn_id conn_id l ≡ some r
        → Reach reserve r.1
    gets_by_inner_uuid :
        {l : AccountList} {r : Option ℕ × AccountList} (inner_uuid : ℕ)
        → Reach reserve l
        → get_by_inner_uuid inner_uuid l ≡ some r
        → Reach reserve r.1
    gets_by_uid :
        {l : AccountList} {r : Option ℕ × AccountList} (uid : List ℕ)
        → Reach reserve l
        → get_by_uid city_hash64 uid l ≡ some r
        → Reach reserve r.1
    kicks :
        {l l' : AccountList} (objid now : ℕ)
        → Reach reserve l
        → kick city_hash64 objid now l ≡ some l'
        → Reach reserve l'
    kicks_by_uid :
        {l l' : AccountList} (uid : List ℕ) (now : ℕ)
        → Reach reserve l
        → kick_by_uid city_hash64 uid now l ≡ some l'
        → Reach reserve l'
    kicks_offline :
        {l : AccountList} {r : List ℕ × AccountList} (tolerance kick_num_max now : ℕ)
        (kicked : List ℕ)
        → Reach reserve l
        → kick_offline_more_than city_hash64 tolerance kick_num_max now kicked l ≡ some r
        → Reach reserve r.1

  pub Reach-IsSound :
      {reserve : ℕ} {l : AccountList}
      → ((i : ℕ) → (memory i).is_ready ≡ false)
      → 1 + 600000 + reserve < 2 ^ 32
      → Reach reserve l
      → IsSound l
  Reach-IsSound {reserve} none small start = new_list-IsSound memory reserve none small
  Reach-IsSound none small (registers {l} login now r e) =
      (register-Good city_hash64 login now l e (Reach-IsSound none small r)).0
  Reach-IsSound none small (extends {l} i ext r) =
      touch-IsSound l i (record (account i l) { ext_data = ext }) (Reach-IsSound none small r) refl
        refl refl
  Reach-IsSound none small (unregisters {l} i now r e) =
      unregister-IsSound city_hash64 i now l e (Reach-IsSound none small r)
  Reach-IsSound none small (unregisters_by_conn_id {l} conn_id now r e) =
      unregister_by_conn_id-IsSound city_hash64 conn_id now l e (Reach-IsSound none small r)
  Reach-IsSound none small (goes_online {l} i conn_id inner_uuid conn_impl now r used) =
      go_online-IsSound l i conn_id inner_uuid conn_impl now (Reach-IsSound none small r) used
  Reach-IsSound none small (goes_offline {l} i now r used) =
      go_offline-IsSound l i now (Reach-IsSound none small r) used
  Reach-IsSound none small (goes_offline_by_uid {l} uid now r e) =
      offline_by_uid-IsSound city_hash64 uid now l e (Reach-IsSound none small r)
  Reach-IsSound none small (keeps_alive {l} i now r used) =
      keep_alive-IsSound l i now (Reach-IsSound none small r) used
  Reach-IsSound none small (keeps_alive_by_uid {l} uid now r e) =
      keep_alive_by_uid-IsSound city_hash64 uid now l e (Reach-IsSound none small r)
  Reach-IsSound none small (checks {l} tolerance now r) =
      check_keep_alive-IsSound tolerance now l (Reach-IsSound none small r)
  Reach-IsSound none small (gets_by_conn_id {l} conn_id r e) =
      (get_by_conn_id-Kept conn_id l e (Reach-IsSound none small r)).0
  Reach-IsSound none small (gets_by_inner_uuid {l} inner_uuid r e) =
      (get_by_inner_uuid-Kept inner_uuid l e (Reach-IsSound none small r)).0
  Reach-IsSound none small (gets_by_uid {l} uid r e) =
      (get_by_uid-Kept city_hash64 uid l e (Reach-IsSound none small r)).0
  Reach-IsSound none small (kicks {l} objid now r e) =
      kick-IsSound city_hash64 objid now l e (Reach-IsSound none small r)
  Reach-IsSound none small (kicks_by_uid {l} uid now r e) =
      kick_by_uid-IsSound city_hash64 uid now l e (Reach-IsSound none small r)
  Reach-IsSound none small (kicks_offline {l} tolerance kick_num_max now kicked r e) =
      kick_offline_more_than-IsSound city_hash64 tolerance kick_num_max now kicked l e
        (Reach-IsSound none small r)
