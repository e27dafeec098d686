-- ===== src/ConnManager/Owned.antt =====
-- Where the manager keeps each connection, over any sequence of its calls.
use netsystem.Base.{
  ℕ, ◌+◌, ◌%◌, ◌^◌, ◌<◌, ◌≡◌, refl, subst, inl, inr, Option, none, some, List, [], ◌∷◌, ◌==◌, ltb,
  ◌&&◌, arith, Option-cases, count, count-cons, count-snoc, unit, some_eq, if_some, lookup, put,
  erase, total, at, at-none, at-some, total-nil, total-put, total-erase,
}
use netsystem.ConnManager.{
  Conn, Call, delete, Manager, clients_of, on_add_client, remove_found, remove_from,
  on_remove_client, on_add_isolated,
}

-- How often a connection was deleted.
unfoldable pub deletes : ℕ → List Call → ℕ
deletes p [] = 0
deletes p (delete c ∷ calls) = unit p c + deletes p calls
deletes p (_ ∷ calls) = deletes p calls

-- How often the manager holds a connection.
unfoldable pub held : ℕ → Manager → ℕ
held p m =
    total (total (unit p)) m.server_entries
    + total (unit p) m.isolateds
    + count p m.recycler
    + count p m.safe_to_release

abbrev pub one : ℕ → ℕ
one client = 1

-- How many clients the entries of the servers hold.
unfoldable pub clients : Manager → ℕ
clients m = total (total one) m.server_entries

pub record IsTracked (added : List ℕ) (m : Manager) : Type 0 where
  pub conserved : (p : ℕ) → 0 < p → held p m + deletes p m.calls ≡ count p added
  pub counted : m.client_count ≡ clients m % 2 ^ 64

-- What a call leaves as it is: for each connection, how often it is held or was deleted.
abbrev Keeps : Manager → Manager → Type 0
Keeps m m' = (p : ℕ) → 0 < p → held p m' + deletes p m'.calls ≡ held p m + deletes p m.calls

total-clients_of :
    (f : ℕ → ℕ) (server : ℕ) (entries : List (ℕ × List (ℕ × ℕ)))
    → total f (clients_of (lookup server entries)) ≡ at (total f) server entries
unfolding clients_of
total-clients_of f server entries = elim (Option-cases (lookup server entries)) [
  | inl e ↦ rw e (total-nil f)
  | inr (clients, e) ↦ rw e refl
]

-- A client added under an id that its server does not use yet.
total-put_client :
    (f : ℕ → ℕ) (server id client : ℕ) (entries : List (ℕ × List (ℕ × ℕ)))
    → lookup id (clients_of (lookup server entries)) ≡ none
    → total (total f) (put server (put id client (clients_of (lookup server entries))) entries)
      ≡ total (total f) entries + f client
total-put_client f server id client entries free =
    let inner = clients_of (lookup server entries) in
    omega (
      arith,
      total-put (total f) server (put id client inner) entries,
      total-put f id client inner,
      at-none f id inner free,
      total-clients_of f server entries,
    )

pub on_add_client-IsTracked :
    {added : List ℕ} {m m' : Manager} (conn : ℕ → Conn) (server client : ℕ)
    → IsTracked added m
    → lookup (conn client).conn_id (clients_of (lookup server m.server_entries)) ≡ none
    → on_add_client conn server client m ≡ some m'
    → IsTracked (client ∷ added) m'
unfolding on_add_client held clients
on_add_client-IsTracked {added} {m} {m'} conn server client o free done =
    let id = (conn client).conn_id in
    let (_, is) = if_some (ltb 0 server && ltb 0 (conn client).conn_id) done in
    subst (IsTracked (client ∷ added)) (some_eq is) (record {
      conserved = λ p pos. omega (
        arith,
        o.conserved p pos,
        total-put_client (unit p) server id client m.server_entries free,
        count-cons p client added,
      );
      counted =
          omega (arith, o.counted, total-put_client one server id client m.server_entries free);
    })

remove_found-IsTracked :
    {added : List ℕ} {m m' : Manager} (server client id : ℕ) (cs : List (ℕ × ℕ)) (o2 : Option ℕ)
    → IsTracked added m
    → lookup server m.server_entries ≡ some cs
    → lookup id cs ≡ o2
    → remove_found server client id cs o2 m ≡ some m'
    → IsTracked added m'
unfolding remove_found held clients deletes
remove_found-IsTracked {added} server client id cs none o e e2 h =
    subst (IsTracked added) (some_eq h) o
remove_found-IsTracked {added} {m} server client id cs (some client2) o e e2 h =
    let (_, is) = if_some (client2 == client) h in
    subst (IsTracked added) (some_eq is) (record {
      conserved = λ p pos. omega (
        arith,
        o.conserved p pos,
        total-put (total (unit p)) server (erase id cs) m.server_entries,
        at-some (total (unit p)) server m.server_entries e,
        total-erase (unit p) id cs,
        at-some (unit p) id cs e2,
        count-snoc p client2 m.recycler,
      );
      counted = omega (
        arith,
        o.counted,
        total-put (total one) server (erase id cs) m.server_entries,
        at-some (total one) server m.server_entries e,
        total-erase one id cs,
        at-some one id cs e2,
      );
    })

remove_from-IsTracked :
    {added : List ℕ} {m m' : Manager} (server client id : ℕ) (found : Option (List (ℕ × ℕ)))
    → IsTracked added m
    → lookup server m.server_entries ≡ found
    → remove_from server client id found m ≡ some m'
    → IsTracked added m'
unfolding remove_from
remove_from-IsTracked {added} server client id none o e h = subst (IsTracked added) (some_eq h) o
remove_from-IsTracked server client id (some cs) o e h =
    remove_found-IsTracked server client id cs (lookup id cs) o e refl h

pub on_remove_client-IsTracked :
    {added : List ℕ} {m m' : Manager} (conn : ℕ → Conn) (server client : ℕ)
    → IsTracked added m
    → on_remove_client conn server client m ≡ some m'
    → IsTracked added m'
unfolding on_remove_client
on_remove_client-IsTracked {added} {m} {m'} conn server client o done =
    let (_, is) = if_some (ltb 0 server && ltb 0 (conn client).conn_id) done in
    remove_from-IsTracked server client (conn client).conn_id (lookup server m.server_entries) o
      refl is

pub on_add_isolated-IsTracked :
    {added : List ℕ} {m m' : Manager} (conn : ℕ → Conn) (isolated : ℕ)
    → IsTracked added m
    → lookup (conn isolated).conn_id m.isolateds ≡ none
    → on_add_isolated conn isolated m ≡ some m'
    → IsTracked (isolated ∷ added) m'
unfolding on_add_isolated held clients
on_add_isolated-IsTracked {added} {m} conn isolated o free done =
    let id = (conn isolated).conn_id in
    let (_, is) = if_some (ltb 0 (conn isolated).conn_id) done in
    subst (IsTracked (isolated ∷ added)) (some_eq is) (record {
      conserved = λ p pos. omega (
        arith,
        o.conserved p pos,
        total-put (unit p) id isolated m.isolateds,
        at-none (unit p) id m.isolateds free,
        count-cons p isolated added,
      );
      counted = o.counted;
    })
