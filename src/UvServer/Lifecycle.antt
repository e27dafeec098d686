-- ===== src/UvServer/Lifecycle.antt =====
-- The life of a client from `on_connection` to `delete`, and where the order of its end goes wrong.
use netsystem.Base.{
  ◌⊎◌, inl, inr, Bool-cases, subst, >>=-eq-some, some_eq, if_some, if_cases, ℕ, ◌≡◌, refl, sym, ◌∙◌,
  true, false, none, some, List, [], ◌∷◌, ◌++◌, ◌==◌, ==_refl, lookup, put, lookup-put, erase-put,
  put-put, ◌>>=◌,
}
use netsystem.UvServer.{
  Client, on_stream_close, add_client, remove_client, event_connected, event_disconnected, Server,
  new_client, is_closing, uv_close_, free_client_handle, add_stream, found_stream, remove_stream,
  on_connect, on_disconnect, flush_handle, flush_stream, dispose_connection, on_remove_client,
  disconnect, confirm_client_is_ready, delete_client,
}
use netsystem.UvServer.Accept.{
  on_accept_client, is_ready, on_server_accept_client, Accepting, finish_connection, on_connection,
  close_streams, close_server, on_server_close, end_or_reset, read_of, on_client_read,
  stream_closed, run_close_cb, closed_by_loop,
}

-- Every call of libuv succeeds.
abbrev pub all_succeed : Accepting
all_succeed = record { status = true; tcp_init = true; accept = true; read_start = true }

lookup-put_self {ℓ} :
    {A : Type ℓ} (k : ℕ) (v : A) (m : List (ℕ × A)) → lookup k (put k v m) ≡ some v
lookup-put_self k v m = lookup-put k k v m ∙ rw (==_refl k) refl

-- New objects at addresses that are not in use.
pub record AreNew (sock clnt conn : ℕ) (s : Server) : Type 0 where
  pub sock_set : (sock == 0) ≡ false
  pub clnt_set : (clnt == 0) ≡ false
  pub conn_set : (conn == 0) ≡ false
  pub sock_new : lookup sock s.sockets ≡ none
  pub sock_open : lookup sock s.closing ≡ none
  pub clnt_new : lookup clnt s.handles ≡ none
  pub stream_new : lookup clnt s.streams ≡ none
  pub conn_new : lookup conn s.clients ≡ none

-- A client whose socket is open, and after its end.
abbrev pub running_client : ℕ → Client
running_client clnt = record {
  running = true;
  connected = true;
  disposed = false;
  flushed = false;
  packet = true;
  clnt = clnt;
}

abbrev ended_client : ℕ → Client
ended_client clnt = record {
  running = false;
  connected = false;
  disposed = true;
  flushed = true;
  packet = false;
  clnt = clnt;
}

module _ (sock clnt conn : ℕ) (s : Server) (n : AreNew sock clnt conn s) where
  abbrev pub opened : Server
  opened = record s {
    handles = put clnt (record { sockimpl = sock; connimpl = conn; bb = true }) s.handles;
    sockets = put sock clnt s.sockets;
    clients = put conn (running_client clnt) s.clients;
    calls = s.calls ++ (add_client conn ∷ []) ++ (event_connected conn ∷ []);
  }

  pub on_connection-opened :
      is_ready s ≡ true → on_connection all_succeed sock clnt conn s ≡ some opened
  unfolding on_connection on_server_accept_client on_accept_client add_stream
      confirm_client_is_ready remove_stream found_stream on_connect finish_connection new_client
      is_ready
  on_connection-opened ready = simp (
    ready,
    n.conn_set,
    n.clnt_set,
    lookup-put_self,
    put-put,
    erase-put clnt clnt s.streams n.stream_new,
  )

  abbrev ended : Server
  ended = record s {
    handles = put clnt (record { sockimpl = 0; connimpl = conn; bb = true }) s.handles;
    sockets = put sock clnt s.sockets;
    closing = put sock on_stream_close s.closing;
    clients = put conn (ended_client clnt) s.clients;
    calls =
        s.calls
        ++ (add_client conn ∷ [])
        ++ (event_connected conn ∷ [])
        ++ (event_disconnected conn ∷ [])
        ++ (remove_client conn ∷ []);
  }

  on_client_read-ended : on_client_read end_or_reset sock opened ≡ some ended
  unfolding on_client_read read_of disconnect on_disconnect on_remove_client dispose_connection
      flush_stream flush_handle uv_close_ is_closing
  on_client_read-ended =
      simp (n.conn_set, n.clnt_set, n.sock_set, lookup-put_self, put-put, n.sock_open)

  abbrev shut : Server
  shut = record ended { sockets = s.sockets; closing = s.closing }

  closed_by_loop-shut : closed_by_loop sock ended ≡ some shut
  unfolding closed_by_loop run_close_cb stream_closed
  closed_by_loop-shut = simp (
    n.conn_set,
    lookup-put_self,
    put-put,
    erase-put sock clnt s.sockets n.sock_new,
    erase-put sock on_stream_close s.closing n.sock_open,
  )

  abbrev gone : Server
  gone = record s { calls = ended.calls }

  delete_client-gone : delete_client conn shut ≡ some gone
  unfolding delete_client free_client_handle
  delete_client-gone = simp (
    n.clnt_set,
    lookup-put_self,
    erase-put conn (ended_client clnt) s.clients n.conn_new,
    erase-put clnt (record { sockimpl = 0; connimpl = conn; bb = true }) s.handles n.clnt_new,
  )

  -- The handle is freed with the client, and the callback of its socket still reads it.
  abbrev deleted : Server
  deleted = record ended { handles = s.handles; clients = s.clients }

  delete_client-deleted : delete_client conn ended ≡ some deleted
  unfolding delete_client free_client_handle
  delete_client-deleted = simp (
    n.clnt_set,
    lookup-put_self,
    erase-put conn (ended_client clnt) s.clients n.conn_new,
    erase-put clnt (record { sockimpl = 0; connimpl = conn; bb = true }) s.handles n.clnt_new,
  )

  closed_by_loop-deleted : closed_by_loop sock deleted ≡ none
  unfolding closed_by_loop run_close_cb stream_closed
  closed_by_loop-deleted = simp (lookup-put_self, n.clnt_new)

-- A client that a server accepts while it is ready, whose stream ends, whose socket libuv then closes, and
-- that is deleted after that, leaves nothing behind: every object that was allocated for it is freed, no
-- memory is used that is not allocated, the dictionaries are as before, and the handlers and the manager
-- have seen it come, connect, disconnect and go, in this order. All calls of libuv have to succeed, and
-- the objects to be new.
pub delete_client-on_connection :
    (sock clnt conn : ℕ) (s : Server)
    → AreNew sock clnt conn s
    → is_ready s ≡ true
    → (on_connection all_succeed sock clnt conn s
        >>= on_client_read end_or_reset sock
        >>= closed_by_loop sock
        >>= delete_client conn)
      ≡ some (record s {
        calls =
            s.calls
            ++ (add_client conn ∷ [])
            ++ (event_connected conn ∷ [])
            ++ (event_disconnected conn ∷ [])
            ++ (remove_client conn ∷ []);
      })
delete_client-on_connection sock clnt conn s n ready = simp (
  on_connection-opened sock clnt conn s n ready,
  on_client_read-ended sock clnt conn s n,
  closed_by_loop-shut sock clnt conn s n,
  delete_client-gone sock clnt conn s n,
)

-- After the end of its stream such a client says that it is disposed and flushed, though libuv has not
-- closed its socket yet: the callback is still to come. If the client is deleted then, the callback reads
-- memory that was freed.
pub closed_by_loop-delete_client :
    (sock clnt conn : ℕ) (s : Server)
    → AreNew sock clnt conn s
    → is_ready s ≡ true
    → (s' : Server) × (c : Client) × ((on_connection all_succeed sock clnt conn s
          >>= on_client_read end_or_reset sock)
        ≡ some s')
      × (lookup conn s'.clients ≡ some c)
      × (c.disposed ≡ true)
      × (c.flushed ≡ true)
      × (lookup sock s'.closing ≡ some on_stream_close)
      × ((delete_client conn s' >>= closed_by_loop sock) ≡ none)
closed_by_loop-delete_client sock clnt conn s n ready = (
  ended sock clnt conn s n,
  ended_client clnt,
  simp (on_connection-opened sock clnt conn s n ready, on_client_read-ended sock clnt conn s n),
  lookup-put_self conn (ended_client clnt) s.clients,
  refl,
  refl,
  lookup-put_self sock on_stream_close s.closing,
  simp (delete_client-deleted sock clnt conn s n, closed_by_loop-deleted sock clnt conn s n),
)

not-ready :
    (sock clnt conn : ℕ) (s : Server)
    → (sock == 0) ≡ false
    → lookup sock s.closing ≡ none
    → is_ready s ≡ false
    → on_connection all_succeed sock clnt conn s ≡ none
unfolding on_connection on_server_accept_client finish_connection free_client_handle uv_close_
    is_closing is_ready
not-ready sock clnt conn s set fresh busy = simp (busy, set, fresh, lookup-put_self, put-put)

no_client :
    (sock clnt : ℕ) (s : Server)
    → (sock == 0) ≡ false
    → lookup sock s.closing ≡ none
    → is_ready s ≡ true
    → on_connection all_succeed sock clnt 0 s ≡ none
unfolding on_connection on_server_accept_client on_accept_client add_stream finish_connection
    free_client_handle uv_close_ is_closing is_ready
no_client sock clnt s set fresh ready = simp (ready, set, fresh, lookup-put_self, put-put)

-- A connection that is refused, since the server is not ready or the factory makes no client for it, ends
-- in the use of a buffer that was never made: `on_connection` creates it only behind the branch that
-- destroys it. All calls of libuv have to succeed, and the socket to be a new one.
pub on_connection_refused :
    (sock clnt conn : ℕ) (s : Server)
    → (sock == 0) ≡ false
    → lookup sock s.closing ≡ none
    → (is_ready s ≡ false) ⊎ (conn ≡ 0)
    → on_connection all_succeed sock clnt conn s ≡ none
on_connection_refused sock clnt conn s set fresh (inl busy) =
    not-ready sock clnt conn s set fresh busy
on_connection_refused sock clnt conn s set fresh (inr null) = elim (Bool-cases (is_ready s)) [
  | inl ready ↦
      subst (λ c. on_connection all_succeed sock clnt c s ≡ none) (sym null)
        (no_client sock clnt s set fresh ready)
  | inr busy ↦ not-ready sock clnt conn s set fresh busy
]

-- A server that is closed meets a null pointer when libuv then runs the callback of its listening socket.
on_server_close-close_server :
    (s : Server) {s' : Server}
    → s.closed ≡ false
    → close_server s ≡ some s'
    → on_server_close s' ≡ none
unfolding close_server on_server_close
on_server_close-close_server s open_yet e = elim (if_cases s.closed _ _ e) [
  | inl (closed, _) ↦ cc
  | inr (_, e') ↦
      let (m, _, finished) = >>=-eq-some (close_streams s.streams s) _ e' in
      let (_, is) = if_some m.srvr_impl finished in
      subst (λ x. on_server_close x ≡ none) (some_eq is) (unfold on_server_close in refl)
]
