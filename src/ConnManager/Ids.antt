-- ===== src/ConnManager/Ids.antt =====
-- The ids that the manager gives out.
use netsystem.Base.{ℕ, zero, suc, ◌+◌, ◌-◌, ◌%◌, ◌≤◌, ◌<◌, ◌≡◌, ◌≢◌, ◌∙◌, arith}
use netsystem.ConnManager.{Manager, conn_id_base, conn_id_max, next_after, get_next_connection_id}

-- The manager after `k` calls of `GetNextConnectionId`.
pub after_calls : ℕ → Manager → Manager
after_calls zero m = m
after_calls (suc k) m = (get_next_connection_id (after_calls k m)).1

-- how many ids there are
abbrev id_num : ℕ
id_num = 998999999999

next_after_lem :
    (id : ℕ)
    → conn_id_base ≤ id
    → id < conn_id_max
    → next_after id ≡ conn_id_base + 1 + (id - conn_id_base) % id_num
unfolding next_after
next_after_lem id low high = ground arith

next_id-after_calls :
    (k : ℕ) (m : Manager)
    → conn_id_base ≤ m.next_id
    → m.next_id < conn_id_max
    → (after_calls (suc k) m).next_id ≡ conn_id_base + 1 + (m.next_id - conn_id_base + k) % id_num
unfolding after_calls get_next_connection_id
next_id-after_calls zero m low high = next_after_lem m.next_id low high ∙ omega arith
next_id-after_calls (suc k) m low high =
    let before = next_id-after_calls k m low high in
    next_after_lem (next_after (after_calls k m).next_id) (omega (arith, before))
      (omega (arith, before))
    ∙ omega (arith, before)

-- From a manager whose last id is from `TCP_CONNID_BASE` up to below `TCP_CONNID_MAX`: every later id
-- lies strictly between the two, and the ids of two calls differ, unless 998999999999 calls or more lie
-- between them.
pub get_next_connection_id_lem :
    (m : Manager) (i j : ℕ)
    → conn_id_base ≤ m.next_id
    → m.next_id < conn_id_max
    → i < j
    → j < i + id_num
    → let (id_i, _) = get_next_connection_id (after_calls i m) in
      let (id_j, _) = get_next_connection_id (after_calls j m) in
      (conn_id_base < id_i) × (id_i < conn_id_max) × (id_i ≢ id_j)
unfolding get_next_connection_id after_calls
get_next_connection_id_lem m i j low high less close =
    let at_i = next_id-after_calls i m low high in
    let at_j = next_id-after_calls j m low high in
    (omega (arith, at_i), omega (arith, at_i), λ e. omega (arith, at_i, at_j, e))
