-- ===== src/ConnManager/Lookup.antt =====
-- Looking up a client by its id, before and after it is added and removed.
use netsystem.Base.{
  ℕ, ◌^◌, ◌<◌, ◌≡◌, refl, sym, ap, subst, inl, inr, ◌∙◌, Bool, true, false, Option, none, some,
  List, [], ◌∷◌, ◌++◌, ◌==◌, ltb, ◌&&◌, if◌then◌else◌, arith, Bool-cases, ==_iff, ==_refl, some_eq,
  if_some, lookup, put, erase, or_else, lookup-put, sub_size, erase-put, put-put,
}
use netsystem.ConnManager.{
  Conn, Manager, clients_of, on_add_client, remove_found, remove_from, on_remove_client,
  lookup_entries, lookup_client_by_conn_id,
}

or_else-none : (x y : Option ℕ) → or_else x y ≡ none → (x ≡ none) × (y ≡ none)
or_else-none none y e = (refl, e)
or_else-none (some a) y e = cc

or_else_if :
    (b : Bool) (client : ℕ) (x y : Option ℕ)
    → or_else (if b then some client else x) y ≡ (if b then some client else or_else x y)
or_else_if true client x y = refl
or_else_if false client x y = refl

-- An entry before the one that is changed does not have the id.
skipped :
    (id j client : ℕ) (x : ℕ → Option ℕ) (y : Option ℕ)
    → x id ≡ none
    → or_else (x j) (if j == id then some client else y)
      ≡ (if j == id then some client else or_else (x j) y)
skipped id j client x y e = elim (Bool-cases (j == id)) [
  | inl same ↦
      let none_here : x j ≡ none = ap x ((==_iff j id).0 same) ∙ e in rw (same, none_here) refl
  | inr other ↦ rw other refl
]

clients_here :
    (server server' : ℕ) (clients : List (ℕ × ℕ)) (entries : List (ℕ × List (ℕ × ℕ)))
    → (server == server') ≡ true
    → clients_of (lookup server ((server', clients) ∷ entries)) ≡ clients
unfolding lookup clients_of
clients_here server server' clients entries same = rw same refl

clients_later :
    (server server' : ℕ) (clients : List (ℕ × ℕ)) (entries : List (ℕ × List (ℕ × ℕ)))
    → (server == server') ≡ false
    → clients_of (lookup server ((server', clients) ∷ entries)) ≡ clients_of (lookup server entries)
unfolding lookup
clients_later server server' clients entries other = rw other refl

-- The id is not used by any server.
lookup_entries-put :
    (server id j client : ℕ) (cs : List (ℕ × ℕ)) (entries : List (ℕ × List (ℕ × ℕ)))
    → clients_of (lookup server entries) ≡ cs
    → lookup_entries id entries ≡ none
    → lookup_entries j (put server (put id client cs) entries)
      ≡ (if j == id then some client else lookup_entries j entries)
unfolding lookup_entries clients_of put lookup
lookup_entries-put server id j client cs [] h free =
    ap (λ c. lookup_entries j ((server, put id client c) ∷ [])) (sym h)
    ∙ rw (lookup-put id j client []) (or_else_if (j == id) client none none)
lookup_entries-put server id j client cs ((server', clients) ∷ entries) h free =
    let (none_here, none_later) =
      or_else-none (lookup id clients) (lookup_entries id entries) free in
    elim (Bool-cases (server == server')) [
      | inl same ↦
          let is : clients ≡ cs = sym (clients_here server server' clients entries same) ∙ h in
          rw (same, ← is, lookup-put id j client clients)
            (or_else_if (j == id) client (lookup j clients) (lookup_entries j entries))
      | inr other ↦
          let is = sym (clients_later server server' clients entries other) ∙ h in
          rw (other, lookup_entries-put server id j client cs entries is none_later)
            (skipped id j client (λ k. lookup k clients) (lookup_entries j entries) none_here)
    ]

-- Once `OnAddClient` has taken a client under an id that no server uses, `LookupClientByConnId` finds the
-- client under its id, and under each other id what it found before.
lookup_client_by_conn_id-on_add_client :
    (conn : ℕ → Conn) (server client j : ℕ) (m : Manager) {m' : Manager}
    → lookup_client_by_conn_id (conn client).conn_id m ≡ none
    → on_add_client conn server client m ≡ some m'
    → lookup_client_by_conn_id j m'
      ≡ (if j == (conn client).conn_id then some client else lookup_client_by_conn_id j m)
unfolding lookup_client_by_conn_id on_add_client
lookup_client_by_conn_id-on_add_client conn server client j m free done =
    let (_, is) = if_some (ltb 0 server && ltb 0 (conn client).conn_id) done in
    ap (λ m1. lookup_entries j m1.server_entries) (sym (some_eq is))
    ∙ lookup_entries-put server (conn client).conn_id j client
        (clients_of (lookup server m.server_entries)) m.server_entries refl free

lookup_in_server :
    (server id : ℕ) (entries : List (ℕ × List (ℕ × ℕ)))
    → lookup_entries id entries ≡ none
    → lookup id (clients_of (lookup server entries)) ≡ none
unfolding lookup_entries clients_of lookup
lookup_in_server server id [] free = refl
lookup_in_server server id ((server', clients) ∷ entries) free =
    let (none_here, none_later) =
      or_else-none (lookup id clients) (lookup_entries id entries) free in
    elim (Bool-cases (server == server')) [
      | inl same ↦ rw same none_here
      | inr other ↦ rw other (lookup_in_server server id entries none_later)
    ]

-- An entry that is put back as it was is looked up as before.
lookup_entries-put_back :
    (server j : ℕ) (cs : List (ℕ × ℕ)) (entries : List (ℕ × List (ℕ × ℕ)))
    → clients_of (lookup server entries) ≡ cs
    → lookup_entries j (put server cs entries) ≡ lookup_entries j entries
unfolding lookup_entries clients_of put lookup
lookup_entries-put_back server j cs [] h = ap (λ c. or_else (lookup j c) none) (sym h)
lookup_entries-put_back server j cs ((server', clients) ∷ entries) h =
    elim (Bool-cases (server == server')) [
      | inl same ↦
          let is : clients ≡ cs = sym (clients_here server server' clients entries same) ∙ h in
          rw (same, is) refl
      | inr other ↦
          let is = sym (clients_later server server' clients entries other) ∙ h in
          rw (other, lookup_entries-put_back server j cs entries is) refl
    ]

-- The manager after the client was removed again.
abbrev Removed : ℕ → ℕ → Manager → Manager → Type 0
Removed server client m m2 =
    ((j : ℕ) → lookup_client_by_conn_id j m2 ≡ lookup_client_by_conn_id j m)
    × (m2.client_count ≡ m.client_count)
    × (m2.recycler ≡ m.recycler ++ (client ∷ []))

remove_added :
    (server client id : ℕ) (cs : List (ℕ × ℕ)) (found : Option ℕ) (m m1 : Manager)
    → found ≡ some client
    → ((j : ℕ)
        → lookup_entries j (put server (erase id cs) m1.server_entries)
          ≡ lookup_entries j m.server_entries)
    → sub_size m1.client_count 1 ≡ m.client_count
    → m1.recycler ≡ m.recycler
    → (m2 : Manager) × (remove_found server client id cs found m1 ≡ some m2)
      × Removed server client m m2
unfolding remove_found lookup_client_by_conn_id
remove_added server client id cs found m m1 e entries count same =
    rw (e, ==_refl client) (_, refl, (entries, count, ap (λ r. r ++ (client ∷ [])) same))

-- A client that was added under an id that no server uses can be removed again: the removal does not
-- fail, each id is looked up as before the client was added, the client count is back at its value,
-- and the client is the last of the recycler. The count has to be below 2^64.
on_remove_client-on_add_client :
    (conn : ℕ → Conn) (server client : ℕ) (m m1 : Manager)
    → m.client_count < 2 ^ 64
    → lookup_client_by_conn_id (conn client).conn_id m ≡ none
    → on_add_client conn server client m ≡ some m1
    → (m2 : Manager) × (on_remove_client conn server client m1 ≡ some m2)
      × Removed server client m m2
unfolding on_remove_client on_add_client remove_from lookup_client_by_conn_id
on_remove_client-on_add_client conn server client m m1 small free done =
    let id = (conn client).conn_id in
    let (ok, is) = if_some (ltb 0 server && ltb 0 (conn client).conn_id) done in
    let cs = clients_of (lookup server m.server_entries) in
    let added = put id client cs in
    let back = erase-put id client cs (lookup_in_server server id m.server_entries free) in
    subst
      (λ m3.
        (m2 : Manager) × (on_remove_client conn server client m3 ≡ some m2)
        × Removed server client m m2)
      (some_eq is)
      (rw (ok, lookup-put server server added m.server_entries, ==_refl server)
        (remove_added server client id added (lookup id added) m _
          (lookup-put id id client cs ∙ rw (==_refl id) refl)
          (λ j.
            ap (lookup_entries j) (put-put server added (erase id added) m.server_entries)
            ∙ ap (λ c. lookup_entries j (put server c m.server_entries)) back
            ∙ lookup_entries-put_back server j cs m.server_entries refl)
          (omega arith) refl))
