-- ===== src/ConnManager/Tests.antt =====
-- The theorems about the connection manager at a server with a few connections.
use netsystem.Base.{
  ℕ, ◌+◌, ◌≡◌, ◌≢◌, ◌<◌, ◌↔◌, refl, true, false, none, some, [], ◌∷◌, arith, count, if◌then◌else◌,
  ◌==◌, lookup, put,
}
use netsystem.ConnManager.{
  Conn, Manager, conn_id_base, conn_id_max, new_manager, clients_of, on_add_client, lookup_entries,
  lookup_client_by_conn_id, recycle, get_next_connection_id,
}
use netsystem.ConnManager.Owned.{deletes, IsTracked}
use netsystem.ConnManager.History.{start, add_client, Reach-IsTracked}
use netsystem.ConnManager.Recycle.{has_work, recycle_lem}
use netsystem.ConnManager.Ids.{after_calls, get_next_connection_id_lem}

-- closed connections, of which only the one at 7 has work left
abbrev conns : ℕ → Conn
conns p = record {
  conn_id = conn_id_base + p;
  is_connected = false;
  is_back_end_clean = true;
  is_front_end_clean = if p == 7 then false else true;
  is_disposed = true;
  is_flushed = true;
}

-- a server at 50 with one client at 7
abbrev with_client : Manager
with_client = record new_manager {
  server_entries = (50, (conn_id_base + 7, 7) ∷ []) ∷ [];
  client_count = 1;
}

added_once : on_add_client conns 50 7 new_manager ≡ some with_client
unfolding on_add_client new_manager clients_of lookup put
added_once = refl

unused : lookup (conns 7).conn_id (clients_of (lookup 50 new_manager.server_entries)) ≡ none
unfolding new_manager clients_of lookup
unused = refl

not_found : lookup_client_by_conn_id (conns 7).conn_id new_manager ≡ none
unfolding new_manager lookup_client_by_conn_id lookup_entries
not_found = refl

Reach-IsTracked_example : IsTracked (7 ∷ []) with_client
Reach-IsTracked_example = Reach-IsTracked (add_client conns 50 7 start unused added_once)

-- a recycler of two connections, one of which is safe to release
abbrev recycling : Manager
recycling = record new_manager { recycler = 7 ∷ 8 ∷ [] }

recycle_lem_example :
    let (more, m') = recycle conns recycling in
    (count 8 m'.recycler ≡ (if has_work (conns 8) then count 8 recycling.recycler else 0))
    × (deletes 8 m'.calls
        ≡ deletes 8 recycling.calls
          + count 8 recycling.safe_to_release
          + (if has_work (conns 8) then 0 else count 8 recycling.recycler))
    × (m'.safe_to_release ≡ [])
    × ((more ≡ false) ↔ (m'.recycler ≡ []))
recycle_lem_example = recycle_lem conns recycling 8 (omega arith)

get_next_connection_id_lem_example :
    let (id_i, _) = get_next_connection_id (after_calls 2 with_client) in
    let (id_j, _) = get_next_connection_id (after_calls 5 with_client) in
    (conn_id_base < id_i) × (id_i < conn_id_max) × (id_i ≢ id_j)
get_next_connection_id_lem_example =
    get_next_connection_id_lem with_client 2 5 (unfold new_manager in omega arith)
      (unfold new_manager in omega arith) (omega arith) (omega arith)
