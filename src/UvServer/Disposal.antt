-- ===== src/UvServer/Disposal.antt =====
-- What becomes of a client: flushing, disposing and disconnecting keep the links.
use netsystem.Base.{
  ℕ, ◌≡◌, refl, sym, ap, ◌∙◌, subst, Bool, true, false, not, ◌&&◌, Option, none, some, inl, inr,
  ◌==◌, if-both, lookup, put, ◌>>=◌, some_eq, arith,
}
use netsystem.UvServer.{
  Handle, Client, CloseCb, on_stream_close, Call, remove_client, event_disconnected, Server, call,
  set_client, is_closing, uv_close_, on_disconnect, flush_handle, flush_stream, dispose_connection,
  on_remove_client, disconnect,
}
use netsystem.UvServer.Linked.{Held, IsLinked, no_both, put_at, touch-IsLinked, shut-IsLinked}

-- The operation uses no memory that is not allocated, and keeps the links and the client.
pub record IsSafe (conn : ℕ) (m : Option Server) : Type 0 where
  pub after : Server
  pub is : m ≡ some after
  pub linked : IsLinked after
  pub client : Client
  pub alive : lookup conn after.clients ≡ some client

bind-IsSafe :
    (conn : ℕ) (m : Option Server) (f : Server → Option Server)
    → IsSafe conn m
    → ((s : Server) (c : Client) → lookup conn s.clients ≡ some c → IsLinked s → IsSafe conn (f s))
    → IsSafe conn (m >>= f)
bind-IsSafe conn m f r next =
    let n = next r.after r.client r.alive r.linked in
    record {
      after = n.after;
      is = ap (λ x. x >>= f) r.is ∙ n.is;
      linked = n.linked;
      client = n.client;
      alive = n.alive;
    }

pub stays :
    (conn : ℕ) (c : Client) (s : Server)
    → lookup conn s.clients ≡ some c
    → IsLinked s
    → IsSafe conn (some s)
stays conn c s e l = record { after = s; is = refl; linked = l; client = c; alive = e }

pub found-IsSafe :
    {A : Type 0} (conn : ℕ) (m : Option A) (a : A) (f : A → Option Server)
    → m ≡ some a
    → IsSafe conn (f a)
    → IsSafe conn (m >>= f)
found-IsSafe conn m a f e r = subst (λ x. IsSafe conn (x >>= f)) (sym e) r

uv_close_open :
    (sock clnt : ℕ) (cb : CloseCb) (s : Server)
    → (sock == 0) ≡ false
    → lookup sock s.sockets ≡ some clnt
    → lookup sock s.closing ≡ none
    → uv_close_ sock cb s ≡ some (record s { closing = put sock cb s.closing })
unfolding uv_close_ is_closing
uv_close_open sock clnt cb s set mine open_yet = simp (set, mine, open_yet)

-- The socket of a handle that is not null.
pub open_socket :
    (conn : ℕ) (c : Client) (h : Handle) (s : Server)
    → lookup c.clnt s.handles ≡ some h
    → (h.sockimpl == 0) ≡ false
    → Held s conn c
    → (lookup h.sockimpl s.sockets ≡ some c.clnt) × (lookup h.sockimpl s.closing ≡ none)
open_socket conn c h s there set held =
    let is : held.h ≡ h = some_eq (sym held.found ∙ there) in
    elim held.socket [
      | inl null ↦
          absurd (no_both (h.sockimpl == 0) (ap (λ x. x.sockimpl == 0) (sym is) ∙ null) set)
      | inr (mine, open_yet) ↦ (
        ap (λ x. lookup x.sockimpl s.sockets) (sym is) ∙ mine,
        ap (λ x. lookup x.sockimpl s.closing) (sym is) ∙ open_yet,
      )
    ]

flush_handle-IsSafe :
    (conn : ℕ) (c : Client) (h : Handle) (s : Server)
    → lookup conn s.clients ≡ some c
    → lookup c.clnt s.handles ≡ some h
    → c.packet ≡ false
    → IsLinked s
    → IsSafe conn (flush_handle conn c h s)
unfolding flush_handle
flush_handle-IsSafe conn c h s found there no_packet l =
    if-both (IsSafe conn) (not (h.sockimpl == 0) && not c.flushed)
      (λ guard.
        let set : (h.sockimpl == 0) ≡ false = passed (h.sockimpl == 0) c.flushed guard in
        let (mine, open_yet) = open_socket conn c h s there set (l.handle_of conn c found) in
        let shut = shut-IsLinked conn c h on_stream_close s found there mine no_packet l in
        found-IsSafe conn _ _ _
          (uv_close_open h.sockimpl c.clnt on_stream_close s set mine open_yet)
          (stays conn (record c { flushed = true }) _
            (put_at conn (record c { flushed = true }) s.clients)
            (touch-IsLinked conn c (record c { flushed = true }) _ found refl (λ e. e) shut)))
      (λ _. stays conn c s found l)
  where
    passed : (a b : Bool) → (not a && not b) ≡ true → a ≡ false
    passed a b e = ground arith

flush_stream-IsSafe :
    (conn : ℕ) (c : Client) (s : Server)
    → lookup conn s.clients ≡ some c
    → c.packet ≡ false
    → IsLinked s
    → IsSafe conn (flush_stream conn s)
unfolding flush_stream
flush_stream-IsSafe conn c s found no_packet l =
    let held = l.handle_of conn c found in
    found-IsSafe conn _ c _ found (
      if-both (IsSafe conn) (c.clnt == 0) (λ _. stays conn c s found l)
        (λ _.
          found-IsSafe conn _ held.h _ held.found
            (flush_handle-IsSafe conn c held.h s found held.found no_packet l)))

pub dispose_connection-IsSafe :
    (conn : ℕ) (c : Client) (s : Server)
    → lookup conn s.clients ≡ some c
    → IsLinked s
    → IsSafe conn (dispose_connection conn s)
unfolding dispose_connection
dispose_connection-IsSafe conn c s found l =
    let c' : Client = record c { disposed = true; packet = false } in
    found-IsSafe conn _ c _ found (
      if-both (IsSafe conn) (not c.disposed)
        (λ _.
          flush_stream-IsSafe conn c' (set_client conn c' s) (put_at conn c' s.clients) refl
            (touch-IsLinked conn c c' s found refl (λ e. absurd (no_both false e refl)) l))
        (λ _. stays conn c s found l))

-- A call to the handlers or the manager changes no link.
call-IsLinked : (k : Call) (s : Server) → IsLinked s → IsLinked (call k s)
call-IsLinked k s l = record {
  handle_of = λ conn c e.
      let held = l.handle_of conn c e in
      record {
        h = held.h;
        found = held.found;
        back = held.back;
        buffer = held.buffer;
        clnt_set = held.clnt_set;
        conn_set = held.conn_set;
        socket = held.socket;
        live = held.live;
      };
  client_of = l.client_of;
}

on_remove_client-IsSafe :
    (conn : ℕ) (s : Server) (c : Client)
    → lookup conn s.clients ≡ some c
    → IsLinked s
    → IsSafe conn (on_remove_client conn s)
unfolding on_remove_client
on_remove_client-IsSafe conn s c found l =
    dispose_connection-IsSafe conn c (call (remove_client conn) s) found
      (call-IsLinked (remove_client conn) s l)

on_disconnect-IsSafe :
    (conn : ℕ) (c : Client) (s : Server)
    → lookup conn s.clients ≡ some c
    → IsLinked s
    → IsSafe conn (on_disconnect conn s)
unfolding on_disconnect
on_disconnect-IsSafe conn c s found l =
    let c' : Client = record c { connected = false } in
    found-IsSafe conn _ c _ found (
      if-both (λ s'. IsSafe conn (some s')) c.connected
        (λ _. stays conn c' _ (put_at conn c' s.clients) (
          call-IsLinked (event_disconnected conn) _
            (touch-IsLinked conn c c' s found refl (λ e. e) l)))
        (λ _. stays conn c s found l))

pub disconnect-IsSafe :
    (conn : ℕ) (c : Client) (s : Server)
    → lookup conn s.clients ≡ some c
    → IsLinked s
    → IsSafe conn (disconnect conn s)
unfolding disconnect
disconnect-IsSafe conn c s found l =
    let c' : Client = record c { running = false } in
    found-IsSafe conn _ c _ found (
      if-both (IsSafe conn) (not c.disposed && c.running)
        (λ _.
          bind-IsSafe conn _ _
            (on_disconnect-IsSafe conn c' (set_client conn c' s) (put_at conn c' s.clients)
              (touch-IsLinked conn c c' s found refl (λ e. e) l))
            (on_remove_client-IsSafe conn))
        (λ _. stays conn c s found l))
