-- ===== src/UvServer/Linked.antt =====
-- The links between clients, their handles and their sockets, and that no operation on a client that was
-- accepted uses memory that is not allocated.
use netsystem.Base.{
  ℕ, ◌≡◌, refl, sym, ap, ◌∙◌, Bool, true, false, none, some, List, ◌⊎◌, inl, inr, ◌==◌, ==_iff,
  ==_refl, lookup, put, lookup-put, Bool-cases, some_eq, arith,
}
use netsystem.UvServer.{Handle, Client, CloseCb, Server, set_client, set_handle}

-- The handle of a client knows it and has its buffer, and its socket, if there is one, is open. A client with a packet has a socket.
pub record Held (s : Server) (conn : ℕ) (c : Client) : Type 0 where
  pub h : Handle
  pub found : lookup c.clnt s.handles ≡ some h
  pub back : h.connimpl ≡ conn
  pub buffer : h.bb ≡ true
  pub clnt_set : (c.clnt == 0) ≡ false
  pub conn_set : (conn == 0) ≡ false
  pub socket :
      ((h.sockimpl == 0) ≡ true)
      ⊎ ((lookup h.sockimpl s.sockets ≡ some c.clnt) × (lookup h.sockimpl s.closing ≡ none))
  pub live : c.packet ≡ true → (h.sockimpl == 0) ≡ false

pub record IsLinked (s : Server) : Type 0 where
  pub handle_of : (conn : ℕ) (c : Client) → lookup conn s.clients ≡ some c → Held s conn c
  pub client_of :
      (clnt : ℕ) (h : Handle)
      → lookup clnt s.handles ≡ some h
      → (c : Client) × (lookup h.connimpl s.clients ≡ some c) × (c.clnt ≡ clnt)

pub no_both : (b : Bool) → b ≡ true → b ≡ false → ⊥
no_both b t f = ground arith

-- A value that was put, at its key and at the others.
pub put_cases {ℓ} :
    {A : Type ℓ} (k j : ℕ) (v w : A) (m : List (ℕ × A))
    → lookup j (put k v m) ≡ some w
    → ((j ≡ k) × (v ≡ w)) ⊎ (((j == k) ≡ false) × (lookup j m ≡ some w))
put_cases k j v w m e = elim (Bool-cases (j == k)) [
  | inl same ↦ inl ((==_iff j k).0 same, some_eq (sym (lookup-put k j v m ∙ rw same refl) ∙ e))
  | inr other ↦ inr (other, sym (lookup-put k j v m ∙ rw other refl) ∙ e)
]

pub put_at {ℓ} : {A : Type ℓ} (k : ℕ) (v : A) (m : List (ℕ × A)) → lookup k (put k v m) ≡ some v
put_at k v m = lookup-put k k v m ∙ rw (==_refl k) refl

pub put_beside {ℓ} :
    {A : Type ℓ} (k j : ℕ) (v : A) (m : List (ℕ × A))
    → (j == k) ≡ false
    → lookup j (put k v m) ≡ lookup j m
put_beside k j v m other = lookup-put k j v m ∙ rw other refl

-- The state of a client changes, its handle does not.
pub touch-IsLinked :
    (conn : ℕ) (c c' : Client) (s : Server)
    → lookup conn s.clients ≡ some c
    → c'.clnt ≡ c.clnt
    → (c'.packet ≡ true → c.packet ≡ true)
    → IsLinked s
    → IsLinked (set_client conn c' s)
touch-IsLinked conn c c' s found same packet l = record {
  handle_of = λ j d e. elim (put_cases conn j c' d s.clients e) [
    | inl (at_conn, is) ↦
        let held = l.handle_of conn c found in
        let clnt : d.clnt ≡ c.clnt = sym (ap (λ x. x.clnt) is) ∙ same in
        record {
          h = held.h;
          found = rw clnt held.found;
          back = held.back ∙ sym at_conn;
          buffer = held.buffer;
          clnt_set = rw clnt held.clnt_set;
          conn_set = rw at_conn held.conn_set;
          socket = rw clnt held.socket;
          live = λ e2. held.live (packet (ap (λ x. x.packet) is ∙ e2));
        }
    | inr (_, before) ↦
        let held = l.handle_of j d before in
        record {
          h = held.h;
          found = held.found;
          back = held.back;
          buffer = held.buffer;
          clnt_set = held.clnt_set;
          conn_set = held.conn_set;
          socket = held.socket;
          live = held.live;
        }
  ];
  client_of = λ clnt h e.
      let (d, there, is) = l.client_of clnt h e in
      elim (Bool-cases (h.connimpl == conn)) [
        | inl here ↦
            let at_conn = (==_iff h.connimpl conn).0 here in
            let d_is_c : d ≡ c =
              some_eq (sym there ∙ ap (λ k. lookup k s.clients) at_conn ∙ found) in
            (
              c',
              ap (λ k. lookup k (put conn c' s.clients)) at_conn ∙ put_at conn c' s.clients,
              same ∙ sym (ap (λ x. x.clnt) d_is_c) ∙ is,
            )
        | inr other ↦ (d, put_beside conn h.connimpl c' s.clients other ∙ there, is)
      ];
}

-- The socket of a client that has no packet is given to libuv to close.
pub shut-IsLinked :
    (conn : ℕ) (c : Client) (h : Handle) (cb : CloseCb) (s : Server)
    → lookup conn s.clients ≡ some c
    → lookup c.clnt s.handles ≡ some h
    → lookup h.sockimpl s.sockets ≡ some c.clnt
    → c.packet ≡ false
    → IsLinked s
    → IsLinked (
        set_handle c.clnt
          (record h { sockimpl = 0 })
          (record s { closing = put h.sockimpl cb s.closing }))
shut-IsLinked conn c h cb s found there theirs no_packet l = record {
  handle_of = λ j d e. elim (Bool-cases (d.clnt == c.clnt)) [
    | inl shared ↦ own j d e ((==_iff d.clnt c.clnt).0 shared)
    | inr other ↦ beside j d e other
  ];
  client_of = λ clnt h2 e. elim (put_cases c.clnt clnt (record h { sockimpl = 0 }) h2 s.handles e) [
    | inl (at_clnt, is) ↦
        let (d, client, same) = l.client_of c.clnt h there in
        (
          d,
          ap (λ x. lookup x s.clients) (sym (ap (λ x. x.connimpl) is)) ∙ client,
          same ∙ sym at_clnt,
        )
    | inr (_, before) ↦ l.client_of clnt h2 before
  ];
}
  where
    after : Server
    after =
        set_handle c.clnt (record h { sockimpl = 0 })
          (record s { closing = put h.sockimpl cb s.closing })

    own : (j : ℕ) (d : Client) → lookup j s.clients ≡ some d → d.clnt ≡ c.clnt → Held after j d
    own j d e same =
        let held = l.handle_of j d e in
        let is : held.h ≡ h =
          some_eq (sym held.found ∙ ap (λ x. lookup x s.handles) same ∙ there) in
        let other = l.handle_of conn c found in
        let also : other.h ≡ h = some_eq (sym other.found ∙ there) in
        let at_conn : j ≡ conn =
          sym held.back ∙ ap (λ x. x.connimpl) is ∙ sym (ap (λ x. x.connimpl) also) ∙ other.back in
        let d_is_c : d ≡ c = some_eq (sym e ∙ ap (λ x. lookup x s.clients) at_conn ∙ found) in
        record {
          h = record h { sockimpl = 0 };
          found =
              ap (λ x. lookup x (put c.clnt (record h { sockimpl = 0 }) s.handles)) same
              ∙ put_at c.clnt (record h { sockimpl = 0 }) s.handles;
          back = sym (ap (λ x. x.connimpl) is) ∙ held.back;
          buffer = sym (ap (λ x. x.bb) is) ∙ held.buffer;
          clnt_set = held.clnt_set;
          conn_set = held.conn_set;
          socket = inl refl;
          live = λ e2. absurd (no_both d.packet e2 (ap (λ x. x.packet) d_is_c ∙ no_packet));
        }

    -- Two handles with the same open socket are one.
    apart :
        (sock : ℕ) (d : Client)
        → (d.clnt == c.clnt) ≡ false
        → lookup sock s.sockets ≡ some d.clnt
        → (sock == h.sockimpl) ≡ false
    apart sock d other mine = elim (Bool-cases (sock == h.sockimpl)) [
      | inl same ↦
          let at_sock = (==_iff sock h.sockimpl).0 same in
          let clash : d.clnt ≡ c.clnt =
            some_eq (sym mine ∙ ap (λ x. lookup x s.sockets) at_sock ∙ theirs) in
          absurd (no_both (d.clnt == c.clnt) ((==_iff d.clnt c.clnt).1 clash) other)
      | inr differ ↦ differ
    ]

    beside :
        (j : ℕ) (d : Client)
        → lookup j s.clients ≡ some d
        → (d.clnt == c.clnt) ≡ false
        → Held after j d
    beside j d e other =
        let held = l.handle_of j d e in
        record {
          h = held.h;
          found = put_beside c.clnt d.clnt (record h { sockimpl = 0 }) s.handles other ∙ held.found;
          back = held.back;
          buffer = held.buffer;
          clnt_set = held.clnt_set;
          conn_set = held.conn_set;
          socket = elim held.socket [
            | inl null ↦ inl null
            | inr (mine, open_yet) ↦ inr (
              mine,
              put_beside h.sockimpl held.h.sockimpl cb s.closing
                    (apart held.h.sockimpl d other mine)
                  ∙ open_yet,
            )
          ];
          live = held.live;
        }
