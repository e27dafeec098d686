-- ===== src/Accounts/Tests.antt =====
-- The theorems about the accounts at a list with room for two.
use netsystem.Base.{
  if◌then◌else◌, false, ℕ, ◌≡◌, refl, true, none, some, List, [], ◌∷◌, length, lookup, arith,
}
use netsystem.ObjectPool.{
  is_used, safe_init, new_nodes, safe_alloc, get, ids_from, set_used, convert_id,
}
use netsystem.Accounts.{
  AccountState, online, AccountList, account, new_list, blank, data_at, set_data, alloc, go_online,
  confirm_account_is_ready, next_index, find_used, get_walked, get_mapped, get_by_uid,
  release_internal,
}
use netsystem.Accounts.Manager.{ok, Login, register, bind_account, register_new, register_checked}
use netsystem.Accounts.Sound.{IsSound, InUse}
use netsystem.Accounts.Slots.{release_internal-IsSound}
use netsystem.Accounts.Logins.{after}
use netsystem.Accounts.Binds.{register_binds}
use netsystem.Accounts.History.{Reach, start, registers, Reach-IsSound}

abbrev hash : List ℕ → ℕ
hash uid = length uid

abbrev login : Login
login = record {
  uid = 65 ∷ 66 ∷ [];
  nick = 67 ∷ [];
  pwd = [];
  connid = 1000000001;
  inner_uuid = 77;
  conn_impl = 4096;
}

-- Memory that holds anything but a mark of being ready.
abbrev memory : ℕ → AccountState
memory i = record blank { keyid = i; onoff = online }

none_ready : (i : ℕ) → (memory i).is_ready ≡ false
unfolding blank
none_ready i = refl

-- the accounts after the first registration
abbrev with_account : AccountList
with_account = elim (register hash login 5 (new_list memory 2)) [
  | none ↦ new_list memory 2
  | some r ↦ after r
]

registered : register hash login 5 (new_list memory 2) ≡ some (ok, some 1, with_account)
unfolding register register_checked register_new bind_account get_by_uid get_mapped get_walked
    find_used next_index alloc confirm_account_is_ready go_online new_list safe_init new_nodes
    safe_alloc get ids_from convert_id set_used set_data data_at blank lookup
registered = refl

with_account-Reach : Reach hash memory 2 with_account
with_account-Reach = registers login 5 start registered

new-IsSound : IsSound (new_list memory 2)
new-IsSound = Reach-IsSound hash memory none_ready (omega arith) start

register_binds_example :
    InUse 1 with_account
    × ((account 1 with_account).is_ready ≡ true)
    × ((account 1 with_account).onoff ≡ online)
    × ((account 1 with_account).onoff_time ≡ 5)
    × ((account 1 with_account).uid ≡ login.uid)
    × ((account 1 with_account).connid ≡ login.connid)
    × ((account 1 with_account).inner_uuid ≡ login.inner_uuid)
register_binds_example = register_binds hash login 5 (new_list memory 2) registered new-IsSound

release_internal-IsSound_example :
    (l' : AccountList) × (release_internal hash 1 9 with_account ≡ some l')
    × IsSound l'
    × (is_used AccountState l'.pool.all_elements 1 ≡ (
        if (account 1 with_account).is_ready
        then false
        else is_used AccountState with_account.pool.all_elements 1))
release_internal-IsSound_example =
    release_internal-IsSound hash with_account 1 9
      (Reach-IsSound hash memory none_ready (omega arith) with_account-Reach)
