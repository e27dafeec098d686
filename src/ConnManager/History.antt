-- ===== src/ConnManager/History.antt =====
-- Any sequence of calls to the manager.
use netsystem.Base.{
  ℕ, ◌≡◌, List, [], ◌∷◌, some, none, arith, count-nil, lookup, total-nil, unit, total,
}
use netsystem.ConnManager.{
  Conn, Manager, new_manager, clients_of, on_add_client, on_remove_client, on_add_isolated,
  release_all_clients, release_all_isolateds, dispose_down_streams, get_next_connection_id, recycle,
}
use netsystem.ConnManager.Owned.{
  deletes, held, clients, one, IsTracked, on_add_client-IsTracked, on_remove_client-IsTracked,
  on_add_isolated-IsTracked,
}
use netsystem.ConnManager.Release.{
  release_all_clients-IsTracked, release_all_isolateds-IsTracked, dispose_down_streams-IsTracked,
}
use netsystem.ConnManager.Recycle.{recycle-IsTracked}

-- The calls up to now, with the connections that were handed to the manager. Before each call the
-- connections may have any state. A connection is handed over under an id that is not in the map.
pub data Reach : List ℕ → Manager → Type 0 where
  start : Reach [] new_manager
  add_client :
      {added : List ℕ} {m m' : Manager} (conn : ℕ → Conn) (server client : ℕ)
      → Reach added m
      → lookup (conn client).conn_id (clients_of (lookup server m.server_entries)) ≡ none
      → on_add_client conn server client m ≡ some m'
      → Reach (client ∷ added) m'
  remove_client :
      {added : List ℕ} {m m' : Manager} (conn : ℕ → Conn) (server client : ℕ)
      → Reach added m
      → on_remove_client conn server client m ≡ some m'
      → Reach added m'
  add_isolated :
      {added : List ℕ} {m m' : Manager} (conn : ℕ → Conn) (isolated : ℕ)
      → Reach added m
      → lookup (conn isolated).conn_id m.isolateds ≡ none
      → on_add_isolated conn isolated m ≡ some m'
      → Reach (isolated ∷ added) m'
  release_clients :
      {added : List ℕ} {m m' : Manager} (conn : ℕ → Conn) (server : ℕ)
      → Reach added m
      → release_all_clients conn server m ≡ some m'
      → Reach added m'
  release_isolateds :
      {added : List ℕ} {m : Manager} → Reach added m → Reach added (release_all_isolateds m)
  dispose :
      {added : List ℕ} {m m' : Manager} (conn : ℕ → Conn) (server : ℕ)
      → Reach added m
      → dispose_down_streams conn server m ≡ some m'
      → Reach added m'
  next_id :
      {added : List ℕ} {m : Manager} → Reach added m → Reach added (get_next_connection_id m).1
  check :
      {added : List ℕ} {m : Manager} (conn : ℕ → Conn)
      → Reach added m
      → Reach added (recycle conn m).1

new_manager-IsTracked : IsTracked [] new_manager
unfolding new_manager held clients deletes
new_manager-IsTracked = record {
  conserved = λ p pos. omega (arith, count-nil p, total-nil (total (unit p)), total-nil (unit p));
  counted = omega (arith, total-nil (total one));
}

next-IsTracked :
    {added : List ℕ} {m : Manager}
    → IsTracked added m
    → IsTracked added (get_next_connection_id m).1
unfolding get_next_connection_id held clients
next-IsTracked o = record { conserved = o.conserved; counted = o.counted }

-- Whatever calls are made, and whatever state the connections have at each: as often as a connection
-- was handed over, the manager holds it or has deleted it, so that none is lost, and one handed over
-- once is not deleted twice; and the client count is the number of clients in the entries of all
-- servers, modulo 2^64, which is what the assertions of the debug build say. The condition is that a
-- connection is handed over under an id that its map does not use at that time.
pub Reach-IsTracked : {added : List ℕ} {m : Manager} → Reach added m → IsTracked added m
Reach-IsTracked start = new_manager-IsTracked
Reach-IsTracked (add_client conn server client r free e) =
    on_add_client-IsTracked conn server client (Reach-IsTracked r) free e
Reach-IsTracked (remove_client conn server client r e) =
    on_remove_client-IsTracked conn server client (Reach-IsTracked r) e
Reach-IsTracked (add_isolated conn isolated r free e) =
    on_add_isolated-IsTracked conn isolated (Reach-IsTracked r) free e
Reach-IsTracked (release_clients conn server r e) =
    release_all_clients-IsTracked conn server (Reach-IsTracked r) e
Reach-IsTracked (release_isolateds r) = release_all_isolateds-IsTracked (Reach-IsTracked r)
Reach-IsTracked (dispose conn server r e) =
    dispose_down_streams-IsTracked conn server (Reach-IsTracked r) e
Reach-IsTracked (next_id r) = next-IsTracked (Reach-IsTracked r)
Reach-IsTracked (check conn r) = recycle-IsTracked conn (Reach-IsTracked r)
