-- ===== src/ConnManager/Release.antt =====
-- The calls that give connections up keep track of each: releasing, disposing and recycling.
use netsystem.Base.{
  ℕ, ◌+◌, ◌%◌, ◌^◌, ◌<◌, ◌≡◌, refl, ap, subst, Option, none, some, List, [], ◌∷◌, ◌==◌, ltb, ◌&&◌,
  arith, if-both, count, count-snoc, unit, some_eq, if_some, >>=-eq-some, lookup, put, total, at,
  at-some, total-nil, total-cons, total-put,
}
use netsystem.ConnManager.{
  Conn, Call, clear_all_event_handlers, add_client_disconnect_cb, dispose_connection, Manager, call,
  clients_of, release_clients, release_entry, release_all_clients, release_isolateds,
  release_all_isolateds, dispose_clients, dispose_down_streams,
}
use netsystem.ConnManager.Owned.{deletes, held, one, clients, IsTracked}

-- A call that deletes nothing.
called-IsTracked :
    {added : List ℕ} {m : Manager} (c : Call)
    → ((p : ℕ) → deletes p (c ∷ m.calls) ≡ deletes p m.calls)
    → IsTracked added m
    → IsTracked added (call c m)
unfolding held clients
called-IsTracked c e o = record {
  conserved = λ p pos. omega (arith, o.conserved p pos, e p);
  counted = o.counted;
}

-- What the loop of `ReleaseAllClients` does: it leaves the maps, and moves each client to the recycler.
record IsReleased (cs : List (ℕ × ℕ)) (m m' : Manager) : Type 0 where
  same_entries : m'.server_entries ≡ m.server_entries
  same_held : (p : ℕ) → held p m' ≡ held p m + total (unit p) cs
  same_deletes : (p : ℕ) → deletes p m'.calls ≡ deletes p m.calls
  fewer : (m'.client_count + total one cs) % 2 ^ 64 ≡ m.client_count % 2 ^ 64
  within : m.client_count < 2 ^ 64 → m'.client_count < 2 ^ 64

release_clients-IsReleased :
    (conn : ℕ → Conn) (cs : List (ℕ × ℕ)) (m : Manager) {m' : Manager}
    → release_clients conn cs m ≡ some m'
    → IsReleased cs m m'
unfolding release_clients held deletes
release_clients-IsReleased conn [] m h = subst (IsReleased [] m) (some_eq h) (record {
  same_entries = refl;
  same_held = λ p. omega (arith, total-nil (unit p));
  same_deletes = λ p. refl;
  fewer = omega (arith, total-nil one);
  within = λ h. h;
})
release_clients-IsReleased conn ((id, client) ∷ cs) m h =
    let (_, is) = if_some (id == (conn client).conn_id) h in
    let rest = release_clients-IsReleased conn cs _ is in
    record {
      same_entries = rest.same_entries;
      same_held = λ p. omega (
        arith,
        rest.same_held p,
        total-cons (unit p) id client cs,
        count-snoc p client m.recycler,
      );
      same_deletes = rest.same_deletes;
      fewer = omega (arith, rest.fewer, total-cons one id client cs);
      within = λ h. rest.within (omega arith);
    }

emptied-IsTracked :
    {added : List ℕ} {m m' : Manager} (server : ℕ) (cs : List (ℕ × ℕ))
    → IsTracked added m
    → lookup server m.server_entries ≡ some cs
    → IsReleased cs m m'
    → IsTracked added (record m' { server_entries = put server [] m'.server_entries })
unfolding held clients
emptied-IsTracked {added} {m} {m'} server cs o e r = record {
  conserved = λ p pos. omega (
    arith,
    o.conserved p pos,
    r.same_held p,
    r.same_deletes p,
    ap (total (total (unit p))) r.same_entries,
    total-put (total (unit p)) server [] m'.server_entries,
    ap (at (total (unit p)) server) r.same_entries,
    at-some (total (unit p)) server m.server_entries e,
    total-nil (unit p),
  );
  counted = omega (
    arith,
    o.counted,
    r.fewer,
    r.within (omega (arith, o.counted)),
    ap (total (total one)) r.same_entries,
    total-put (total one) server [] m'.server_entries,
    ap (at (total one) server) r.same_entries,
    at-some (total one) server m.server_entries e,
    total-nil one,
  );
}

release_entry-IsTracked :
    {added : List ℕ} {m m' : Manager} (conn : ℕ → Conn) (server : ℕ) (found : Option (List (ℕ × ℕ)))
    → IsTracked added m
    → lookup server m.server_entries ≡ found
    → release_entry conn server found m ≡ some m'
    → IsTracked added m'
unfolding release_entry
release_entry-IsTracked {added} conn server none o e h = subst (IsTracked added) (some_eq h) o
release_entry-IsTracked {added} {m} conn server (some cs) o e h =
    let (m1, done, is) = >>=-eq-some (release_clients conn cs m) _ h in
    subst (IsTracked added) (some_eq is)
      (emptied-IsTracked server cs o e (release_clients-IsReleased conn cs m done))

pub release_all_clients-IsTracked :
    {added : List ℕ} {m m' : Manager} (conn : ℕ → Conn) (server : ℕ)
    → IsTracked added m
    → release_all_clients conn server m ≡ some m'
    → IsTracked added m'
unfolding release_all_clients deletes
release_all_clients-IsTracked {added} {m} conn server o done =
    let (_, is) = if_some (ltb 0 server) done in
    release_entry-IsTracked conn server (lookup server m.server_entries)
      (called-IsTracked (clear_all_event_handlers server) (λ p. refl) o) refl is

-- What the loop of `ReleaseAllIsolateds` does.
release_isolateds-IsTracked :
    {added : List ℕ} (isolateds : List (ℕ × ℕ)) (m : Manager)
    → ((p : ℕ)
        → 0 < p
        → held p m + total (unit p) isolateds + deletes p m.calls
          ≡ count p added + total (unit p) m.isolateds)
    → m.client_count ≡ clients m % 2 ^ 64
    → IsTracked added (record (release_isolateds isolateds m) { isolateds = [] })
unfolding release_isolateds held deletes clients
release_isolateds-IsTracked [] m h c = record {
  conserved = λ p pos. omega (arith, h p pos, total-nil (unit p));
  counted = c;
}
release_isolateds-IsTracked ((id, isolated) ∷ isolateds) m h c =
    release_isolateds-IsTracked isolateds _
      (λ p pos. omega (
        arith,
        h p pos,
        total-cons (unit p) id isolated isolateds,
        count-snoc p isolated m.recycler,
      ))
      c

pub release_all_isolateds-IsTracked :
    {added : List ℕ} {m : Manager} → IsTracked added m → IsTracked added (release_all_isolateds m)
unfolding release_all_isolateds
release_all_isolateds-IsTracked {added} {m} o =
    release_isolateds-IsTracked m.isolateds m (λ p pos. omega (arith, o.conserved p pos)) o.counted

-- The loop of `DisposeDownStreams` only makes calls, none of which deletes.
dispose_clients-IsTracked :
    {added : List ℕ} (conn : ℕ → Conn) (server : ℕ) (cs : List (ℕ × ℕ)) (m : Manager)
    → IsTracked added m
    → IsTracked added (dispose_clients conn server cs m)
unfolding dispose_clients deletes
dispose_clients-IsTracked conn server [] m o = o
dispose_clients-IsTracked {added} conn server ((id, client) ∷ cs) m o =
    dispose_clients-IsTracked conn server cs _ (
      if-both (IsTracked added) (ltb 0 client && (conn client).conn_id == id)
        (λ _.
          called-IsTracked (add_client_disconnect_cb server client) (λ p. refl)
            (called-IsTracked (dispose_connection client) (λ p. refl) o))
        (λ _. o))

pub dispose_down_streams-IsTracked :
    {added : List ℕ} {m m' : Manager} (conn : ℕ → Conn) (server : ℕ)
    → IsTracked added m
    → dispose_down_streams conn server m ≡ some m'
    → IsTracked added m'
unfolding dispose_down_streams
dispose_down_streams-IsTracked {added} {m} conn server o done =
    let (_, is) = if_some (ltb 0 server) done in
    subst (IsTracked added) (some_eq is)
      (dispose_clients-IsTracked conn server (clients_of (lookup server m.server_entries)) m o)
