-- ===== src/UvServer/Reached.antt =====
-- The states of a server whose clients come, are read and written, and go.
use netsystem.Base.{
  ℕ, ◌≡◌, sym, ap, ◌∙◌, subst, Bool, true, some, List, [], some_eq, >>=-eq-some, lookup,
}
use netsystem.UvServer.{Client, Server, dispose_connection, disconnect, send_raw}
use netsystem.UvServer.Accept.{
  is_ready, on_connection, closed_by_loop, ReadResult, on_client_read, on_client_write_error,
}
use netsystem.UvServer.Lifecycle.{all_succeed, AreNew, on_connection-opened}
use netsystem.UvServer.Linked.{IsLinked}
use netsystem.UvServer.Disposal.{dispose_connection-IsSafe, disconnect-IsSafe}
use netsystem.UvServer.Safety.{
  keeps_packet, opened-IsLinked, kept, closed_by_loop-IsLinked, on_client_read-IsSafe,
  on_client_write_error-IsSafe, send_raw-IsSafe,
}

-- A server without clients, and what happens to it and to them, in any order and as often as it likes.
-- No client is refused or deleted, only the packet of a client sends,
-- and data are read for a client with its packet, whose handlers do not disconnect it meanwhile.
pub data Reach : Server → Type 0 where
  start : (s : Server) → s.handles ≡ [] → s.clients ≡ [] → Reach s
  accepts :
      {s s' : Server} (sock clnt conn : ℕ)
      → Reach s
      → AreNew sock clnt conn s
      → is_ready s ≡ true
      → on_connection all_succeed sock clnt conn s ≡ some s'
      → Reach s'
  reads :
      {s s' : Server} (r : ReadResult) (sock conn : ℕ) (c : Client)
      → Reach s
      → lookup conn s.clients ≡ some c
      → lookup sock s.sockets ≡ some c.clnt
      → keeps_packet r c ≡ true
      → on_client_read r sock s ≡ some s'
      → Reach s'
  fails_to_write :
      {s s' : Server} (sock : ℕ) → Reach s → on_client_write_error sock s ≡ some s' → Reach s'
  sends :
      {s s' : Server} (written : Bool) (conn : ℕ) (c : Client)
      → Reach s
      → s.srvr_impl ≡ true
      → lookup conn s.clients ≡ some c
      → c.packet ≡ true
      → send_raw written conn s ≡ some s'
      → Reach s'
  disconnects : {s s' : Server} (conn : ℕ) → Reach s → disconnect conn s ≡ some s' → Reach s'
  disposes : {s s' : Server} (conn : ℕ) → Reach s → dispose_connection conn s ≡ some s' → Reach s'
  closes : {s s' : Server} (sock : ℕ) → Reach s → closed_by_loop sock s ≡ some s' → Reach s'

empty-IsLinked : (s : Server) → s.handles ≡ [] → s.clients ≡ [] → IsLinked s
unfolding lookup
empty-IsLinked s no_handles no_clients = record {
  handle_of = λ conn c e. absurd (nothing conn s.clients no_clients e);
  client_of = λ clnt h e. absurd (nothing clnt s.handles no_handles e);
}
  where
    nothing : {A : Type 0} (k : ℕ) (m : List (ℕ × A)) {v : A} → m ≡ [] → lookup k m ≡ some v → ⊥
    nothing k m is e = let clash = sym (ap (lookup k) is) ∙ e in cc

pub Reach-IsLinked : {s : Server} → Reach s → IsLinked s
unfolding on_client_read on_client_write_error send_raw disconnect dispose_connection
Reach-IsLinked (start s no_handles no_clients) = empty-IsLinked s no_handles no_clients
Reach-IsLinked (accepts {s} sock clnt conn r n ready e) =
    subst IsLinked (some_eq (sym (on_connection-opened sock clnt conn s n ready) ∙ e))
      (opened-IsLinked sock clnt conn s n (Reach-IsLinked r))
Reach-IsLinked (reads result sock conn c r found mine keeps e) =
    kept conn _ (on_client_read-IsSafe conn c _ found (Reach-IsLinked r) result sock mine keeps) e
Reach-IsLinked (fails_to_write {s} sock r e) =
    let l = Reach-IsLinked r in
    let (clnt, mine, e1) = >>=-eq-some (lookup sock s.sockets) _ e in
    let (h, there, _) = >>=-eq-some (lookup clnt s.handles) _ e1 in
    let (c, found, same) = l.client_of clnt h there in
    kept h.connimpl _
      (on_client_write_error-IsSafe h.connimpl c s found l sock (mine ∙ ap some (sym same))) e
Reach-IsLinked (sends written conn c r impl found packet e) =
    kept conn _ (send_raw-IsSafe conn c _ found (Reach-IsLinked r) written impl packet) e
Reach-IsLinked (disconnects {s} conn r e) =
    let (c, found, _) = >>=-eq-some (lookup conn s.clients) _ e in
    kept conn _ (disconnect-IsSafe conn c s found (Reach-IsLinked r)) e
Reach-IsLinked (disposes {s} conn r e) =
    let (c, found, _) = >>=-eq-some (lookup conn s.clients) _ e in
    kept conn _ (dispose_connection-IsSafe conn c s found (Reach-IsLinked r)) e
Reach-IsLinked (closes {s} sock r e) = closed_by_loop-IsLinked sock s e (Reach-IsLinked r)
