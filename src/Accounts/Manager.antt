-- ===== src/Accounts/Manager.antt =====
-- src/lobby/SimpleAccountManager.cpp and src/lobby/IAccountManager.h: registering an account, also
-- while it is registered on another connection. The exception of a conflict of an account with itself
-- is `none`.
use netsystem.Base.{
  ℕ, zero, suc, ◌&&◌, ◌||◌, Option, none, some, List, ltb, leb, ◌==◌, if◌then◌else◌, length, take,
  ◌>>=◌,
}
use netsystem.ObjectPool.{is_used, get}
use netsystem.Accounts.{
  AccountState, AccountList, account, store, alloc, confirm_account_is_ready, get_by_uid,
  get_by_inner_uuid, release_internal, new_list,
}

-- ACC_REG_RESULT
pub data RegResult : Type 0 where
  account_list_is_full main_account_is_not_ready conflict_too_many_times bind_uid_overflow
        invalid_uid ok conflict duplicate_registration :
      RegResult

-- What `Register` is given.
pub record Login : Type 0 where
  pub uid : List ℕ
  pub nick : List ℕ
  pub pwd : List ℕ
  pub connid : ℕ
  pub inner_uuid : ℕ
  pub conn_impl : ℕ

-- `eResult` and `*ppOutAccount`
abbrev pub Registered : Type 0
Registered = RegResult × Option ℕ × AccountList

-- The end of `Register`, for a result that is not negative.
unfoldable pub bind_account : Login → ℕ → RegResult → ℕ → AccountList → Registered
bind_account login now result i l =
    let st = record (account i l) {
      uid = take 35 login.uid;
      nick = take 35 login.nick;
      pwd = take 39 login.pwd;
    } in
    (
      result,
      some i,
      confirm_account_is_ready i login.connid login.inner_uuid login.conn_impl now (store i st l),
    )

-- No account has the uid: a new one.
unfoldable pub register_new : Login → ℕ → Option ℕ × AccountList → Registered
register_new login now (none, l) = (account_list_is_full, none, l)
register_new login now (some i, l) = bind_account login now ok i l

-- The account `c` has the uid on another connection: a new account, marked as in conflict with it.
unfoldable pub register_conflict : Login → ℕ → ℕ → Option ℕ × AccountList → Option Registered
register_conflict login now c (none, l) = some (account_list_is_full, none, l)
register_conflict login now c (some i, l) =
    if i == c
    then none
    else (let l = store i (record (account i l) { conflict_keyid = (account c l).keyid }) l in
        let l = store c (record (account c l) { conflict_keyid = (account i l).keyid }) l in
        some (bind_account login now conflict i l))

-- The check of the account that has the uid, if one has.
unfoldable pub register_checked : Login → ℕ → Option ℕ × AccountList → Option Registered
register_checked login now (none, l) = alloc l >>= (λ r. some (register_new login now r))
register_checked login now (some c, l) =
    if ltb 0 (account c l).conflict_keyid
    then some (conflict_too_many_times, none, l)
    else (if (account c l).ext_data == 0
        then some (main_account_is_not_ready, none, l)
        else (if login.connid == (account c l).connid
            then some (bind_account login now duplicate_registration c l)
            else alloc l >>= register_conflict login now c))

-- The conflict of an account is over: both accounts lose their mark.
unfoldable pub clear_conflict : ℕ → AccountList → Option AccountList
clear_conflict i l =
    let keyid = (account i l).conflict_keyid in
    if ltb 0 keyid
    then get AccountState l.pool keyid >>= (λ c.
      let l = store i (record (account i l) { conflict_keyid = 0 }) l in
      some (store c (record (account c l) { conflict_keyid = 0 }) l))
    else some l

module _ (city_hash64 : List ℕ → ℕ) where
  unfoldable pub register : Login → ℕ → AccountList → Option Registered
  register login now l =
      if 0 == length login.uid
      then some (invalid_uid, none, l)
      else (if leb 36 (length login.uid) || leb 36 (length login.nick) || leb 40 (length login.pwd)
          then some (bind_uid_overflow, none, l)
          else get_by_uid city_hash64 login.uid l >>= register_checked login now)

  unfoldable pub unregister : ℕ → ℕ → AccountList → Option AccountList
  unregister i now l =
      if (account i l).is_ready
      then clear_conflict i l >>= release_internal city_hash64 i now
      else some l

  -- The loop of `UnregisterByConnId` over `n` elements from `i` on.
  unfoldable pub unregister_from : ℕ → ℕ → ℕ → ℕ → AccountList → Option AccountList
  unregister_from zero i conn_id now l = some l
  unregister_from (suc n) i conn_id now l =
      (if is_used AccountState l.pool.all_elements i && conn_id == (account i l).connid
        then unregister i now l
        else some l)
      >>= unregister_from n (suc i) conn_id now

  unfoldable pub unregister_by_conn_id : ℕ → ℕ → AccountList → Option AccountList
  unregister_by_conn_id conn_id now l = unregister_from l.pool.total_size 0 conn_id now l

-- The manager starts with room for 16384 accounts.
unfoldable new_accounts : (memory : ℕ → AccountState) → AccountList
new_accounts memory = new_list memory 16384

lookup_account_by_inner_uuid : ℕ → AccountList → Option (Option ℕ × AccountList)
lookup_account_by_inner_uuid inner_uuid l = get_by_inner_uuid inner_uuid l
