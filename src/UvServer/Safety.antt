-- ===== src/UvServer/Safety.antt =====
-- Any sequence of operations on the clients of a server.
use netsystem.Base.{
  ℕ, ◌≡◌, refl, sym, ap, ◌∙◌, subst, Bool, true, false, not, ◌&&◌, Option, none, some, List, [],
  ◌∷◌, inl, inr, ◌==◌, ==_iff, if◌then◌else◌, if-both, if_cases, >>=-eq-some, lookup, put, erase,
  Bool-cases, some_eq, arith,
}
use netsystem.UvServer.{
  Handle, Client, CloseCb, on_sock_close, on_stream_close, Server, disconnect, send_raw,
}
use netsystem.UvServer.Accept.{
  closed_by_loop, run_close_cb, stream_closed, ReadResult, end_or_reset, other_error, nothing_read,
  data_read, hand_over, on_raw_data, read_of, on_client_read, on_client_write_error,
}
use netsystem.UvServer.Lifecycle.{AreNew, running_client, opened}
use netsystem.UvServer.Linked.{Held, IsLinked, put_cases, put_at, put_beside, touch-IsLinked}
use netsystem.UvServer.Disposal.{
  IsSafe, stays, found-IsSafe, dispose_connection-IsSafe, disconnect-IsSafe,
}

differ :
    {A : Type 0} (k j : ℕ) (m : List (ℕ × A)) {v : A}
    → lookup k m ≡ none
    → lookup j m ≡ some v
    → (j == k) ≡ false
differ k j m absent there = elim (Bool-cases (j == k)) [
  | inl same ↦ let clash = sym there ∙ ap (λ x. lookup x m) ((==_iff j k).0 same) ∙ absent in cc
  | inr other ↦ other
]

erase_beside :
    {A : Type 0} (k j : ℕ) (m : List (ℕ × A)) → (j == k) ≡ false → lookup j (erase k m) ≡ lookup j m
unfolding lookup erase
erase_beside k j [] other = refl
erase_beside k j ((i, v) ∷ m) other = ground (arith, erase_beside k j m other)

pub opened-IsLinked :
    (sock clnt conn : ℕ) (s : Server) (n : AreNew sock clnt conn s)
    → IsLinked s
    → IsLinked (opened sock clnt conn s n)
opened-IsLinked sock clnt conn s n l = record {
  handle_of = λ j d e. elim (put_cases conn j (running_client clnt) d s.clients e) [
    | inl (at_conn, is) ↦
        subst (Held after j) is
          (subst (λ k. Held after k (running_client clnt)) (sym at_conn) fresh)
    | inr (_, before) ↦ old j d (l.handle_of j d before)
  ];
  client_of = λ clnt2 h2 e. elim (put_cases clnt clnt2 own h2 s.handles e) [
    | inl (at_clnt, is) ↦ (
      running_client clnt,
      ap (λ x. lookup x.connimpl (put conn (running_client clnt) s.clients)) (sym is)
          ∙ put_at conn (running_client clnt) s.clients,
      sym at_clnt,
    )
    | inr (_, before) ↦
        let (d, client, same) = l.client_of clnt2 h2 before in
        (
          d,
          put_beside conn h2.connimpl (running_client clnt) s.clients
                (differ conn h2.connimpl s.clients n.conn_new client)
              ∙ client,
          same,
        )
  ];
}
  where
    own : Handle
    own = record { sockimpl = sock; connimpl = conn; bb = true }

    after : Server
    after = opened sock clnt conn s n

    fresh : Held after conn (running_client clnt)
    fresh = record {
      h = own;
      found = put_at clnt own s.handles;
      back = refl;
      buffer = refl;
      clnt_set = n.clnt_set;
      conn_set = n.conn_set;
      socket = inr (put_at sock clnt s.sockets, n.sock_open);
      live = λ _. n.sock_set;
    }

    old : (j : ℕ) (d : Client) → Held s j d → Held after j d
    old j d held = record {
      h = held.h;
      found =
          put_beside clnt d.clnt own s.handles (differ clnt d.clnt s.handles n.clnt_new held.found)
          ∙ held.found;
      back = held.back;
      buffer = held.buffer;
      clnt_set = held.clnt_set;
      conn_set = held.conn_set;
      socket = elim held.socket [
        | inl null ↦ inl null
        | inr (mine, open_yet) ↦ inr (
          put_beside sock held.h.sockimpl clnt s.sockets
                (differ sock held.h.sockimpl s.sockets n.sock_new mine)
              ∙ mine,
          open_yet,
        )
      ];
      live = held.live;
    }

-- libuv is done with a socket.
shut-IsLinked :
    (sock : ℕ) (cb : CloseCb) (s : Server)
    → lookup sock s.closing ≡ some cb
    → IsLinked s
    → IsLinked (record s { closing = erase sock s.closing; sockets = erase sock s.sockets })
shut-IsLinked sock cb s closing l = record {
  handle_of = λ j d e.
      let held = l.handle_of j d e in
      record {
        h = held.h;
        found = held.found;
        back = held.back;
        buffer = held.buffer;
        clnt_set = held.clnt_set;
        conn_set = held.conn_set;
        socket = elim held.socket [
          | inl null ↦ inl null
          | inr (mine, open_yet) ↦
              let other = apart held.h.sockimpl open_yet in
              inr (
                erase_beside sock held.h.sockimpl s.sockets other ∙ mine,
                erase_beside sock held.h.sockimpl s.closing other ∙ open_yet,
              )
        ];
        live = held.live;
      };
  client_of = l.client_of;
}
  where
    apart : (k : ℕ) → lookup k s.closing ≡ none → (k == sock) ≡ false
    apart k open_yet = elim (Bool-cases (k == sock)) [
      | inl same ↦
          let clash =
            sym closing ∙ ap (λ x. lookup x s.closing) (sym ((==_iff k sock).0 same)) ∙ open_yet in
          cc
      | inr other ↦ other
    ]

-- Linked servers only, whatever an operation on an existing client returns.
pub kept : (conn : ℕ) (m : Option Server) {s' : Server} → IsSafe conn m → m ≡ some s' → IsLinked s'
kept conn m r e = subst IsLinked (some_eq (sym r.is ∙ e)) r.linked

-- The server once the socket is freed too.
abbrev freed : ℕ → Server → Server
freed sock s = record s { sockets = erase sock s.sockets }

run_close_cb-IsLinked :
    (sock : ℕ) (cb : CloseCb) (part mid : Server)
    → IsLinked (freed sock part)
    → run_close_cb cb sock part ≡ some mid
    → IsLinked (freed sock mid)
unfolding run_close_cb stream_closed
run_close_cb-IsLinked sock on_sock_close part mid l ran =
    subst (λ x. IsLinked (freed sock x)) (some_eq ran) l
run_close_cb-IsLinked sock on_stream_close part mid l ran =
    let (clnt, _, e) = >>=-eq-some (lookup sock part.sockets) _ ran in
    let (h, _, e') = >>=-eq-some (lookup clnt part.handles) _ e in
    elim (if_cases (h.connimpl == 0) _ _ e') [
      | inl (_, same) ↦ subst (λ x. IsLinked (freed sock x)) (some_eq same) l
      | inr (_, set) ↦
          let (c, found, done) = >>=-eq-some (lookup h.connimpl part.clients) _ set in
          subst (λ x. IsLinked (freed sock x)) (some_eq done)
            (touch-IsLinked h.connimpl c (record c { flushed = true }) (freed sock part) found refl
              (λ e. e) l)
    ]

pub closed_by_loop-IsLinked :
    (sock : ℕ) (s : Server) {s' : Server}
    → closed_by_loop sock s ≡ some s'
    → IsLinked s
    → IsLinked s'
unfolding closed_by_loop
closed_by_loop-IsLinked sock s e l =
    let (cb, closing, e1) = >>=-eq-some (lookup sock s.closing) _ e in
    let part : Server = record s { closing = erase sock s.closing } in
    let (mid, ran, e2) = >>=-eq-some (run_close_cb cb sock part) _ e1 in
    subst IsLinked (some_eq e2)
      (run_close_cb-IsLinked sock cb part mid (shut-IsLinked sock cb s closing l) ran)

-- No handler disconnects the client.
abbrev pub none_disconnects : List Bool → Bool
none_disconnects [] = true
none_disconnects (d ∷ disconnects) = not d && none_disconnects disconnects

-- The client has its packet, and keeps it while the data are taken.
abbrev pub keeps_packet : ReadResult → Client → Bool
keeps_packet end_or_reset c = true
keeps_packet other_error c = true
keeps_packet nothing_read c = true
keeps_packet (data_read disconnects) c = c.packet && none_disconnects disconnects

both : (a b : Bool) → (a && b) ≡ true → (a ≡ true) × (b ≡ true)
both a b e = (ground arith, ground arith)

-- A client, with its handle.
module _ (conn : ℕ) (c : Client) (s : Server) (found : lookup conn s.clients ≡ some c)
    (l : IsLinked s) where
  then-IsSafe :
      (b : Bool) (x y : Option Server) → b ≡ true → IsSafe conn x → IsSafe conn (if b then x else y)
  then-IsSafe b x y e r = subst (λ t. IsSafe conn (if t then x else y)) (sym e) r

  else-IsSafe :
      (b : Bool) (x y : Option Server)
      → b ≡ false
      → IsSafe conn y
      → IsSafe conn (if b then x else y)
  else-IsSafe b x y e r = subst (λ t. IsSafe conn (if t then x else y)) (sym e) r

  hand_over-same :
      (disconnects : List Bool)
      → c.packet ≡ true
      → none_disconnects disconnects ≡ true
      → hand_over disconnects conn s ≡ some s
  unfolding hand_over
  hand_over-same [] packet kept_yet = refl
  hand_over-same (true ∷ disconnects) packet kept_yet = cc
  hand_over-same (false ∷ disconnects) packet kept_yet =
      simp (found, packet, hand_over-same disconnects packet kept_yet)

  on_raw_data-IsSafe :
      (disconnects : List Bool)
      → c.packet ≡ true
      → none_disconnects disconnects ≡ true
      → IsSafe conn (on_raw_data disconnects conn s)
  unfolding on_raw_data
  on_raw_data-IsSafe disconnects packet kept_yet = found-IsSafe conn _ c _ found (
      then-IsSafe c.packet _ _ packet (
        subst (IsSafe conn) (sym (hand_over-same disconnects packet kept_yet))
          (stays conn c s found l)))

  module _ (clnt : ℕ) (h : Handle) (there : lookup c.clnt s.handles ≡ some h) where
    held : Held s conn c
    held = l.handle_of conn c found

    same_handle : held.h ≡ h
    same_handle = some_eq (sym held.found ∙ there)

    back : h.connimpl ≡ conn
    back = ap (λ x. x.connimpl) (sym same_handle) ∙ held.back

    buffer : h.bb ≡ true
    buffer = ap (λ x. x.bb) (sym same_handle) ∙ held.buffer

    -- What `on_client_read` and `on_client_write` do with a client that is lost.
    lost-IsSafe :
        (x : Option Server) → IsSafe conn (if h.connimpl == 0 then x else disconnect h.connimpl s)
    lost-IsSafe x =
        else-IsSafe (h.connimpl == 0) x _ (ap (λ k. k == 0) back ∙ held.conn_set) (
          subst (λ k. IsSafe conn (disconnect k s)) (sym back) (disconnect-IsSafe conn c s found l))

    read_of-IsSafe : (r : ReadResult) → keeps_packet r c ≡ true → IsSafe conn (read_of r clnt h s)
    unfolding read_of
    read_of-IsSafe end_or_reset kept_yet = then-IsSafe h.bb _ none buffer (lost-IsSafe _)
    read_of-IsSafe other_error kept_yet = stays conn c s found l
    read_of-IsSafe nothing_read kept_yet = then-IsSafe h.bb _ none buffer (stays conn c s found l)
    read_of-IsSafe (data_read disconnects) kept_yet =
        let (packet, none_of) = both c.packet (none_disconnects disconnects) kept_yet in
        then-IsSafe h.bb _ none buffer (
          else-IsSafe (h.connimpl == 0) _ _ (ap (λ k. k == 0) back ∙ held.conn_set) (
            subst (λ k. IsSafe conn (on_raw_data disconnects k s)) (sym back)
              (on_raw_data-IsSafe disconnects packet none_of)))

  pub on_client_read-IsSafe :
      (r : ReadResult) (sock : ℕ)
      → lookup sock s.sockets ≡ some c.clnt
      → keeps_packet r c ≡ true
      → IsSafe conn (on_client_read r sock s)
  unfolding on_client_read
  on_client_read-IsSafe r sock e kept_yet =
      let own = l.handle_of conn c found in
      found-IsSafe conn _ c.clnt _ e
        (found-IsSafe conn _ own.h _ own.found (read_of-IsSafe c.clnt own.h own.found r kept_yet))

  pub on_client_write_error-IsSafe :
      (sock : ℕ) → lookup sock s.sockets ≡ some c.clnt → IsSafe conn (on_client_write_error sock s)
  unfolding on_client_write_error
  on_client_write_error-IsSafe sock e =
      let own = l.handle_of conn c found in
      found-IsSafe conn _ c.clnt _ e
        (found-IsSafe conn _ own.h _ own.found (lost-IsSafe c.clnt own.h own.found _))

  sendable : (a b : Bool) → a ≡ true → b ≡ false → (a && not b) ≡ true
  sendable a b x y = ground arith

  pub send_raw-IsSafe :
      (written : Bool)
      → s.srvr_impl ≡ true
      → c.packet ≡ true
      → IsSafe conn (send_raw written conn s)
  unfolding send_raw
  send_raw-IsSafe written impl packet =
      let own = l.handle_of conn c found in
      found-IsSafe conn _ c _ found (
        else-IsSafe (c.clnt == 0) none _ own.clnt_set (
          found-IsSafe conn _ own.h _ own.found (
            then-IsSafe (s.srvr_impl && not (own.h.sockimpl == 0)) _ none
              (sendable s.srvr_impl (own.h.sockimpl == 0) impl (own.live packet))
              (if-both (IsSafe conn) written (λ _. stays conn c s found l)
                (λ _. dispose_connection-IsSafe conn c s found l)))))
