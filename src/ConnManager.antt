-- ===== src/ConnManager.antt =====
-- src/tcp/TcpConnManager.cpp and src/tcp/TcpConnManager.h: the clients of each server and the isolated
-- connections by connection id, and the recycler, from which a connection is deleted once all threads
-- are done with it. A connection is its address, `conn` gives what the manager reads of it. Calls on
-- other objects are listed. An assertion that fails is `none`.
pub mod Owned
pub mod Release
pub mod Recycle
pub mod History
pub mod Ids
pub mod Lookup
mod Tests
use netsystem.Base.{
  ℕ, ◌+◌, Bool, true, false, ◌&&◌, not, Option, none, some, List, [], ◌∷◌, ◌++◌, ltb, leb, ◌==◌,
  if◌then◌else◌, length, add_size, sub_size, lookup, put, erase, ◌>>=◌, or_else,
}

-- What an `ITcpConn` answers.
pub record Conn : Type 0 where
  pub conn_id : ℕ
  pub is_connected : Bool
  pub is_back_end_clean : Bool
  pub is_front_end_clean : Bool
  pub is_disposed : Bool
  pub is_flushed : Bool

-- The calls on the factory, on event managers and on connections, and `delete`.
pub data Call : Type 0 where
  release_connection : ℕ → Call
  add_client_disconnect_cb : ℕ → ℕ → Call
  clear_all_event_handlers : ℕ → Call
  disconnect : ℕ → Call
  dispose_connection : ℕ → Call
  delete : ℕ → Call

pub record Manager : Type 0 where
  pub next_id : ℕ
  pub server_entries : List (ℕ × List (ℕ × ℕ))
  pub isolateds : List (ℕ × ℕ)
  pub client_count : ℕ
  pub recycler : List ℕ
  pub safe_to_release : List ℕ
  pub calls : List Call

-- TCP_CONNID_BASE
abbrev pub conn_id_base : ℕ
conn_id_base = 1000000000

-- TCP_CONNID_MAX
abbrev pub conn_id_max : ℕ
conn_id_max = 1000000000000

unfoldable pub new_manager : Manager
new_manager = record {
  next_id = conn_id_base;
  server_entries = [];
  isolateds = [];
  client_count = 0;
  recycler = [];
  safe_to_release = [];
  calls = [];
}

-- The newest call comes first.
abbrev pub call : Call → Manager → Manager
call c m = record m { calls = c ∷ m.calls }

abbrev recycler_push : ℕ → Manager → Manager
recycler_push conn m = record m { recycler = m.recycler ++ (conn ∷ []) }

-- the clients of a server, none if it has no entry yet
unfoldable pub clients_of : Option (List (ℕ × ℕ)) → List (ℕ × ℕ)
clients_of none = []
clients_of (some clients) = clients

unfoldable pub on_add_client : (ℕ → Conn) → ℕ → ℕ → Manager → Option Manager
on_add_client conn server client m =
    let id = (conn client).conn_id in
    if ltb 0 server && ltb 0 id
    then some (record m {
      server_entries =
          put server (put id client (clients_of (lookup server m.server_entries))) m.server_entries;
      client_count = add_size m.client_count 1;
    })
    else none

-- The body of `OnRemoveClient` for an entry that was found, with the client that it holds.
unfoldable pub remove_found : ℕ → ℕ → ℕ → List (ℕ × ℕ) → Option ℕ → Manager → Option Manager
remove_found server client id clients none m = some m
remove_found server client id clients (some client2) m =
    if client2 == client
    then (let m = call (release_connection client2) m in
        let m = record m { server_entries = put server (erase id clients) m.server_entries } in
        let m = recycler_push client2 m in
        some (record m { client_count = sub_size m.client_count 1 }))
    else none

-- What `OnRemoveClient` does with the entry it found, if any.
unfoldable pub remove_from : ℕ → ℕ → ℕ → Option (List (ℕ × ℕ)) → Manager → Option Manager
remove_from server client id none m = some m
remove_from server client id (some clients) m =
    remove_found server client id clients (lookup id clients) m

unfoldable pub on_remove_client : (ℕ → Conn) → ℕ → ℕ → Manager → Option Manager
on_remove_client conn server client m =
    let id = (conn client).conn_id in
    if ltb 0 server && ltb 0 id
    then remove_from server client id (lookup server m.server_entries) m
    else none

unfoldable pub on_add_isolated : (ℕ → Conn) → ℕ → Manager → Option Manager
on_add_isolated conn isolated m =
    let id = (conn isolated).conn_id in
    if ltb 0 id then some (record m { isolateds = put id isolated m.isolateds }) else none

-- The loop of `ReleaseAllClients`.
unfoldable pub release_clients : (ℕ → Conn) → List (ℕ × ℕ) → Manager → Option Manager
release_clients conn [] m = some m
release_clients conn ((id, client) ∷ clients) m =
    let m = call (release_connection client) m in
    let m = recycler_push client m in
    let m = record m { client_count = sub_size m.client_count 1 } in
    let rest = release_clients conn clients m in if id == (conn client).conn_id then rest else none

-- What `ReleaseAllClients` does with the entry it found, if any.
unfoldable pub release_entry : (ℕ → Conn) → ℕ → Option (List (ℕ × ℕ)) → Manager → Option Manager
release_entry conn server none m = some m
release_entry conn server (some clients) m =
    release_clients conn clients m
    >>= (λ m'. some (record m' { server_entries = put server [] m'.server_entries }))

unfoldable pub release_all_clients : (ℕ → Conn) → ℕ → Manager → Option Manager
release_all_clients conn server m =
    if ltb 0 server
    then release_entry conn server (lookup server m.server_entries)
        (call (clear_all_event_handlers server) m)
    else none

-- The loop of `ReleaseAllIsolateds`.
unfoldable pub release_isolateds : List (ℕ × ℕ) → Manager → Manager
release_isolateds [] m = m
release_isolateds ((id, isolated) ∷ isolateds) m =
    let m = call (clear_all_event_handlers isolated) m in
    let m = call (disconnect isolated) m in
    let m = call (release_connection isolated) m in
    release_isolateds isolateds (recycler_push isolated m)

unfoldable pub release_all_isolateds : Manager → Manager
release_all_isolateds m = record (release_isolateds m.isolateds m) { isolateds = [] }

-- The loop of `DisposeDownStreams`. The address 0 is a null pointer.
unfoldable pub dispose_clients : (ℕ → Conn) → ℕ → List (ℕ × ℕ) → Manager → Manager
dispose_clients conn server [] m = m
dispose_clients conn server ((id, client) ∷ clients) m =
    let cb = call (add_client_disconnect_cb server client) (call (dispose_connection client) m) in
    dispose_clients conn server clients
      (if ltb 0 client && (conn client).conn_id == id then cb else m)

unfoldable pub dispose_down_streams : (ℕ → Conn) → ℕ → Manager → Option Manager
dispose_down_streams conn server m =
    if ltb 0 server
    then some (dispose_clients conn server (clients_of (lookup server m.server_entries)) m)
    else none

-- The loop of `LookupClientByConnId`.
unfoldable pub lookup_entries : ℕ → List (ℕ × List (ℕ × ℕ)) → Option ℕ
lookup_entries id [] = none
lookup_entries id ((server, clients) ∷ entries) =
    let rest = lookup_entries id entries in or_else (lookup id clients) rest

unfoldable pub lookup_client_by_conn_id : ℕ → Manager → Option ℕ
lookup_client_by_conn_id id m = lookup_entries id m.server_entries

-- `GetNextConnectionId`: the id is the new `_uNextId`. Below the maximum `++` does not wrap.
unfoldable pub next_after : ℕ → ℕ
next_after id = let next = add_size id 1 in if leb conn_id_max next then conn_id_base + 1 else next

unfoldable pub get_next_connection_id : Manager → ℕ × Manager
get_next_connection_id m = (next_after m.next_id, record m { next_id = next_after m.next_id })

-- The test of `RecyclerPop`: no thread has work left for the connection.
unfoldable pub is_safe : Conn → Bool
is_safe c =
    not c.is_connected
    && c.is_back_end_clean
    && c.is_front_end_clean
    && c.is_disposed
    && c.is_flushed

-- The loop of `RecyclerPop`: what stays in the recycler, and what is safe to release.
unfoldable pub sort_out : (ℕ → Conn) → List ℕ → List ℕ → List ℕ × List ℕ
sort_out conn [] safe = ([], safe)
sort_out conn (c ∷ recycler) safe =
    let moved = sort_out conn recycler (safe ++ (c ∷ [])) in
    let kept = sort_out conn recycler safe in
    if is_safe (conn c) then moved else (c ∷ kept.0, kept.1)

unfoldable pub recycler_pop : (ℕ → Conn) → Manager → Manager
recycler_pop conn m =
    let (recycler, safe) = sort_out conn m.recycler m.safe_to_release in
    record m { recycler = recycler; safe_to_release = safe }

-- The loop of `SafeRelease`: a null pointer is not deleted.
unfoldable pub delete_all : List ℕ → List Call → List Call
delete_all [] calls = calls
delete_all (c ∷ safe) calls = delete_all safe (if 0 == c then calls else delete c ∷ calls)

unfoldable pub safe_release : Manager → Manager
safe_release m = record m { calls = delete_all m.safe_to_release m.calls; safe_to_release = [] }

-- The answer is whether the recycler still holds a connection.
unfoldable pub recycle : (ℕ → Conn) → Manager → Bool × Manager
recycle conn m = let m = safe_release (recycler_pop conn m) in (ltb 0 (length m.recycler), m)

unfoldable on_check_connection : (ℕ → Conn) → Manager → Manager
on_check_connection conn m = (recycle conn m).1
