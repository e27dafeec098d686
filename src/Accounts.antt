-- ===== src/Accounts.antt =====
-- src/lobby/AccountStateList.cpp, src/lobby/AccountStateList.h and src/lobby/IAccountStateList.h: the
-- accounts of a lobby in an object pool, with maps that find them faster. A pointer to an account is
-- its index in the pool, a C string is its bytes. An assertion that fails, and a pointer outside the
-- pool, is `none`. `city_hash64` is the hash of src/base/cityhash.
pub mod Manager
pub mod Count
pub mod Sound
pub mod Slots
pub mod Fresh
pub mod Logins
pub mod Leave
pub mod Binds
pub mod Walks
pub mod History
mod Tests
use netsystem.Base.{
  ℕ, zero, suc, ◌+◌, ◌-◌, Bool, true, false, ◌&&◌, Option, none, some, List, [], ◌∷◌, ◌++◌, ltb,
  leb, ◌==◌, if◌then◌else◌, length, sub_size, lookup, put, erase, ◌>>=◌,
}
use netsystem.ObjectPool.{Node, Pool, safe_init, safe_alloc, release, get, is_used}

-- ACC_CONNECTION_ONOFF
pub data OnOff : Type 0 where
  init online offline : OnOff

-- ACCOUNT_STATE, with `route_table` and `login_checker` written out
pub record AccountState : Type 0 where
  pub keyid : ℕ
  pub is_ready : Bool
  pub uid : List ℕ
  pub nick : List ℕ
  pub pwd : List ℕ
  pub connid : ℕ
  pub inner_uuid : ℕ
  pub conn_impl : ℕ
  pub onoff : OnOff
  pub onoff_time : ℕ
  pub ext_data : ℕ
  pub login_state : ℕ
  pub conflict_keyid : ℕ

pub record AccountList : Type 0 where
  pub pool : Pool AccountState
  pub online_count : ℕ
  pub uid_hash_map : List (ℕ × ℕ)
  pub conn_id_map : List (ℕ × ℕ)
  pub inner_uuid_map : List (ℕ × ℕ)

-- what `memset` leaves
unfoldable pub blank : AccountState
blank = record {
  keyid = 0;
  is_ready = false;
  uid = [];
  nick = [];
  pwd = [];
  connid = 0;
  inner_uuid = 0;
  conn_impl = 0;
  onoff = init;
  onoff_time = 0;
  ext_data = 0;
  login_state = 0;
  conflict_keyid = 0;
}

-- `memory` is what the elements hold that `new` leaves as they are.
unfoldable pub new_list : (memory : ℕ → AccountState) (reserve : ℕ) → AccountList
new_list memory reserve = record {
  pool = safe_init AccountState memory 600000 reserve;
  online_count = 0;
  uid_hash_map = [];
  conn_id_map = [];
  inner_uuid_map = [];
}

abbrev pub Nodes : Type 0
Nodes = List (Node AccountState)

-- `_all_elements[i]._data`
unfoldable pub data_at : Nodes → ℕ → AccountState
data_at [] i = blank
data_at (node ∷ nodes) zero = node.node_data
data_at (node ∷ nodes) (suc i) = data_at nodes i

unfoldable pub set_data : Nodes → ℕ → AccountState → Nodes
set_data [] i st = []
set_data (node ∷ nodes) zero st = record node { node_data = st } ∷ nodes
set_data (node ∷ nodes) (suc i) st = node ∷ set_data nodes i st

abbrev pub account : ℕ → AccountList → AccountState
account i l = data_at l.pool.all_elements i

abbrev pub store : ℕ → AccountState → AccountList → AccountList
store i st l = record l {
  pool = record (l.pool) { all_elements = set_data l.pool.all_elements i st };
}

unfoldable pub is_online : OnOff → Bool
is_online online = true
is_online _ = false

unfoldable pub is_offline : OnOff → Bool
is_offline offline = true
is_offline _ = false

-- `CalcOnlineCount`, whose sum of at most 2^32 elements does not wrap
unfoldable pub calc_online_count : Nodes → ℕ
calc_online_count [] = 0
calc_online_count (node ∷ nodes) =
    (if node.used && is_online node.node_data.onoff then 1 else 0) + calc_online_count nodes

unfoldable calc_offline_count : Nodes → ℕ
calc_offline_count [] = 0
calc_offline_count (node ∷ nodes) =
    (if node.used && is_offline node.node_data.onoff then 1 else 0) + calc_offline_count nodes

-- The account, or a null pointer.
unfoldable pub alloc : AccountList → Option (Option ℕ × AccountList)
alloc l =
    let (objid, pool) = safe_alloc AccountState l.pool in
    let l = record l { pool = pool } in
    if ltb 0 objid
    then get AccountState pool objid
      >>= (λ i. some (some i, store i (record blank { keyid = objid; onoff = init }) l))
    else some (none, l)

unfoldable pub go_online : ℕ → ℕ → ℕ → ℕ → ℕ → AccountList → AccountList
go_online i conn_id inner_uuid conn_impl now l =
    let st = record (account i l) {
      connid = conn_id;
      inner_uuid = inner_uuid;
      conn_impl = conn_impl;
      onoff = online;
      onoff_time = now;
    } in
    let l = store i st l in record l { online_count = calc_online_count l.pool.all_elements }

unfoldable pub go_offline : ℕ → ℕ → AccountList → AccountList
go_offline i now l =
    let count =
      if is_online (account i l).onoff then sub_size l.online_count 1 else l.online_count in
    store i (record (account i l) { onoff = offline; onoff_time = now })
      (record l { online_count = count })

unfoldable pub keep_alive : ℕ → ℕ → AccountList → AccountList
keep_alive i now l =
    if is_online (account i l).onoff
    then store i (record (account i l) { onoff_time = now }) l
    else l

-- `ConfirmAccountIsReady`
unfoldable pub confirm_account_is_ready : ℕ → ℕ → ℕ → ℕ → ℕ → AccountList → AccountList
confirm_account_is_ready i conn_id inner_uuid conn_impl now l =
    let l = go_online i conn_id inner_uuid conn_impl now l in
    store i (record (account i l) { is_ready = true }) l

-- 0 == strcmp
unfoldable pub same_text : List ℕ → List ℕ → Bool
same_text [] [] = true
same_text (c ∷ s) (d ∷ t) = let rest = same_text s t in if c == d then rest else false
same_text _ _ = false

-- The index in the whole list of what was found in its tail.
unfoldable pub next_index : Option ℕ → Option ℕ
next_index none = none
next_index (some i) = some (suc i)

-- The walk over the elements in use, up to the first that meets a test.
unfoldable pub find_used : (AccountState → Bool) → Nodes → Option ℕ
find_used test [] = none
find_used test (node ∷ nodes) =
    let rest = find_used test nodes in
    if node.used && test node.node_data then some 0 else next_index rest

-- `assert(it->second->is_ready)`
unfoldable pub assert_ready : Nodes → ℕ → List (ℕ × ℕ) → Option (Option ℕ × List (ℕ × ℕ))
assert_ready nodes i m = if (data_at nodes i).is_ready then some (some i, m) else none

-- What the walk of the three functions below found is stored in the map.
unfoldable pub get_walked : ℕ → Option ℕ → Nodes → List (ℕ × ℕ) → Option (Option ℕ × List (ℕ × ℕ))
get_walked key none nodes m = some (none, m)
get_walked key (some i) nodes m = assert_ready nodes i (put key i m)

unfoldable pub get_mapped :
    ℕ → (AccountState → Bool) → Option ℕ → Nodes → List (ℕ × ℕ) → Option (Option ℕ × List (ℕ × ℕ))
get_mapped key test (some i) nodes m = assert_ready nodes i m
get_mapped key test none nodes m = get_walked key (find_used test nodes) nodes m

unfoldable pub get_by_conn_id : ℕ → AccountList → Option (Option ℕ × AccountList)
get_by_conn_id conn_id l =
    get_mapped conn_id (λ st. conn_id == st.connid) (lookup conn_id l.conn_id_map)
      l.pool.all_elements l.conn_id_map
    >>= (λ r. some (r.0, record l { conn_id_map = r.1 }))

unfoldable pub get_by_inner_uuid : ℕ → AccountList → Option (Option ℕ × AccountList)
get_by_inner_uuid inner_uuid l =
    get_mapped inner_uuid (λ st. inner_uuid == st.inner_uuid) (lookup inner_uuid l.inner_uuid_map)
      l.pool.all_elements l.inner_uuid_map
    >>= (λ r. some (r.0, record l { inner_uuid_map = r.1 }))

-- The loop of `CheckKeepAlive` over `n` elements from `i` on. Times are not negative.
unfoldable pub check_from : ℕ → ℕ → ℕ → ℕ → AccountList → AccountList
check_from zero i tolerance now l = l
check_from (suc n) i tolerance now l =
    let lost =
      is_used AccountState l.pool.all_elements i
      && is_online (account i l).onoff
      && leb ((account i l).onoff_time + tolerance) now in
    check_from n (suc i) tolerance now (if lost then go_offline i now l else l)

unfoldable pub check_keep_alive : ℕ → ℕ → AccountList → AccountList
check_keep_alive tolerance now l = check_from l.pool.total_size 0 tolerance now l

-- `erase(find(key))`, if the key is not 0
unfoldable pub erase_positive : ℕ → List (ℕ × ℕ) → List (ℕ × ℕ)
erase_positive key m = if ltb 0 key then erase key m else m

module _ (city_hash64 : List ℕ → ℕ) where
  unfoldable pub get_by_uid : List ℕ → AccountList → Option (Option ℕ × AccountList)
  get_by_uid uid l =
      get_mapped (city_hash64 uid) (λ st. same_text uid st.uid)
        (lookup (city_hash64 uid) l.uid_hash_map) l.pool.all_elements l.uid_hash_map
      >>= (λ r. some (r.0, record l { uid_hash_map = r.1 }))

  -- `ReleaseInternal`
  unfoldable pub release_internal : ℕ → ℕ → AccountList → Option AccountList
  release_internal i now l =
      let st = account i l in
      if st.is_ready
      then (let l = store i (record st { is_ready = false }) l in
          let l = record l {
            uid_hash_map = erase (city_hash64 st.uid) l.uid_hash_map;
            conn_id_map = erase_positive st.connid l.conn_id_map;
            inner_uuid_map = erase_positive st.inner_uuid l.inner_uuid_map;
          } in
          let l = go_offline i now l in
          release AccountState l.pool st.keyid >>= (λ pool. some (record l { pool = pool })))
      else some l

  unfoldable pub on_found :
      (ℕ → AccountList → Option AccountList)
      → Option ℕ × AccountList
      → Option (Option ℕ × AccountList)
  on_found f (none, l) = some (none, l)
  on_found f (some i, l) = f i l >>= (λ l. some (some i, l))

  unfoldable pub offline_by_uid : List ℕ → ℕ → AccountList → Option (Option ℕ × AccountList)
  offline_by_uid uid now l =
      on_found (λ i l. some (go_offline i now l))
        (find_used (λ st. same_text st.uid uid) l.pool.all_elements, l)

  unfoldable pub keep_alive_by_uid : List ℕ → ℕ → AccountList → Option (Option ℕ × AccountList)
  keep_alive_by_uid uid now l = get_by_uid uid l >>= on_found (λ i l. some (keep_alive i now l))

  unfoldable pub kick : ℕ → ℕ → AccountList → Option AccountList
  kick objid now l = get AccountState l.pool objid >>= (λ i. release_internal i now l)

  unfoldable pub kick_by_uid : List ℕ → ℕ → AccountList → Option AccountList
  kick_by_uid uid now l =
      get_by_uid uid l >>= on_found (λ i l. release_internal i now l) >>= (λ r. some r.1)

  -- The loop of `KickOfflineMoreThan` over `n` elements from `i` on, with the kicked ones so far.
  unfoldable pub kick_from :
      ℕ → ℕ → ℕ → ℕ → ℕ → List ℕ → AccountList → Option (List ℕ × AccountList)
  kick_from zero i tolerance kick_num_max now kicked l = some (kicked, l)
  kick_from (suc n) i tolerance kick_num_max now kicked l =
      let late =
        is_used AccountState l.pool.all_elements i
        && is_offline (account i l).onoff
        && leb ((account i l).onoff_time + tolerance) now in
      let full = late && leb kick_num_max (length kicked + 1) in
      let kicked' = if late then kicked ++ (i ∷ []) else kicked in
      (if late then release_internal i now l else some l) >>= (λ l.
        if full
        then some (kicked', l)
        else kick_from n (suc i) tolerance kick_num_max now kicked' l)

  unfoldable pub kick_offline_more_than :
      ℕ → ℕ → ℕ → List ℕ → AccountList → Option (List ℕ × AccountList)
  kick_offline_more_than tolerance kick_num_max now kicked l =
      kick_from l.pool.total_size 0 tolerance kick_num_max now kicked l
