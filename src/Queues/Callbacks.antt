-- ===== src/Queues/Callbacks.antt =====
-- `RunOnce` on callbacks of the right ids: which of them it runs, and that no assertion fails.
use netsystem.Base.{
  ℕ, zero, suc, ◌≡◌, refl, sym, ap, ◌∙◌, Bool, true, false, List, [], ◌∷◌, ◌++◌, append-nil,
  append_assoc, if◌then◌else◌, take, drop, some, ◌>>=◌, ◌==◌, ==_iff, inl, inr, Bool-cases,
}
use netsystem.Queues.{
  CommandType, ResultCb, Callback, accept_client_cb, client_disconnect_cb, client_packet_cb,
  client_inner_packet_cb, isolated_connect_cb, isolated_disconnect_cb, isolated_packet_cb,
  isolated_inner_packet_cb, FrontCall, on_accept_client, on_connect, on_disconnect,
  on_remove_client, on_packet, on_inner_packet, Queues, change, incr_front_end_consume_num,
}
use netsystem.Queues.Work.{add, commit, flush_tcp_server_down_stream}
use netsystem.Queues.Trunk.{Front, run_callback, next_callback, run_rounds}

-- The id that a callback brings along is that of its connection.
abbrev pub IsBound : (ℕ → ℕ) → Callback → Type 0
IsBound conn_id (client_packet_cb client id _ _ _) = conn_id client ≡ id
IsBound conn_id (client_inner_packet_cb client id _ _ _ _) = conn_id client ≡ id
IsBound conn_id (isolated_packet_cb isolated id _ _ _) = conn_id isolated ≡ id
IsBound conn_id (isolated_inner_packet_cb isolated id _ _ _ _) = conn_id isolated ≡ id
IsBound conn_id _ = Unit

unfoldable pub AllBound : (ℕ → ℕ) → List Callback → Type 0
AllBound conn_id [] = Unit
AllBound conn_id (cb ∷ cbs) = IsBound conn_id cb × AllBound conn_id cbs

-- What the handlers see of a callback.
unfoldable pub handled : Front → Callback → List FrontCall
handled front (accept_client_cb server streamptr ip) =
    if front.is_closed (accept_client_cb server streamptr ip)
    then []
    else on_accept_client server streamptr ip ∷ []
handled front (client_disconnect_cb server client) =
    on_disconnect client ∷ on_remove_client server client ∷ []
handled front (client_packet_cb client _ n name body) = on_packet client n name body ∷ []
handled front (client_inner_packet_cb client _ u n name body) =
    on_inner_packet client u n name body ∷ []
handled front (isolated_connect_cb isolated) = on_connect isolated ∷ []
handled front (isolated_disconnect_cb isolated) = on_disconnect isolated ∷ []
handled front (isolated_packet_cb isolated _ n name body) = on_packet isolated n name body ∷ []
handled front (isolated_inner_packet_cb isolated _ u n name body) =
    on_inner_packet isolated u n name body ∷ []

unfoldable pub all_handled : Front → List Callback → List FrontCall
all_handled front [] = []
all_handled front (cb ∷ cbs) = handled front cb ++ all_handled front cbs

-- The queues after a callback was run: the trunk queue is as it was.
pub record Ran (front : Front) (cb : Callback) (q : Queues) : Type 0 where
  pub after : Queues
  pub is : run_callback front cb q ≡ some after
  pub open_yet : after.close ≡ q.close
  pub left : after.callbacks ≡ q.callbacks
  pub seen : after.front_calls ≡ q.front_calls ++ handled front cb

pub record Kept (q q' : Queues) : Type 0 where
  pub open_yet : q'.close ≡ q.close
  pub left : q'.callbacks ≡ q.callbacks
  pub seen : q'.front_calls ≡ q.front_calls

pub commit-Kept :
    (ok : Bool) (t : CommandType) (h : ℕ) (ts : List ℕ) (s u n : ℕ) (name body : List ℕ)
    (cb : ResultCb) (q : Queues)
    → Kept q (commit ok t h ts s u n name body cb q)
unfolding commit add
commit-Kept ok t h ts s u n name body cb q =
    go q.done ok (record { open_yet = refl; left = refl; seen = refl })
      (record { open_yet = refl; left = refl; seen = refl })
  where
    go :
        (d k : Bool) {x y : Queues}
        → Kept q x
        → Kept q y
        → Kept q
            (if◌then◌else◌ {A = Bool × Queues} d (false, y) (if k then (true, x) else (false, y))).1
    go true k sx sy = sy
    go false true sx sy = sx
    go false false sx sy = sy

flush-Kept :
    (ok : Bool) (server streamptr : ℕ) (q : Queues)
    → Kept q (flush_tcp_server_down_stream ok server streamptr q)
unfolding flush_tcp_server_down_stream
flush-Kept ok server streamptr q = commit-Kept ok _ _ _ _ _ _ _ _ _ q

if_pass {ℓ} : {A : Type ℓ} (b : Bool) (x y : A) → b ≡ true → (if b then x else y) ≡ x
if_pass b x y e = rw e refl

if_fail {ℓ} : {A : Type ℓ} (b : Bool) (x y : A) → b ≡ false → (if b then x else y) ≡ y
if_fail b x y e = rw e refl

-- A callback that found the id it was added with.
pub ran : (front : Front) (cb : Callback) (q : Queues) → IsBound front.conn_id cb → Ran front cb q
unfolding run_callback handled incr_front_end_consume_num change
ran front (accept_client_cb server streamptr ip) q b =
    elim (Bool-cases (front.is_closed (accept_client_cb server streamptr ip))) [
      | inl closed ↦
          let cb = accept_client_cb server streamptr ip in
          let kept = flush-Kept (front.enqueues cb) server streamptr q in
          record {
            after = flush_tcp_server_down_stream (front.enqueues cb) server streamptr q;
            is = rw closed refl;
            open_yet = kept.open_yet;
            left = kept.left;
            seen = rw closed (kept.seen ∙ sym (append-nil q.front_calls));
          }
      | inr open_yet ↦ record {
        after = record q {
          front_calls = q.front_calls ++ (on_accept_client server streamptr ip ∷ []);
        };
        is = rw open_yet refl;
        open_yet = refl;
        left = refl;
        seen = rw open_yet refl;
      }
    ]
ran front (client_disconnect_cb server client) q b = record {
  after = _;
  is = refl;
  open_yet = refl;
  left = refl;
  seen = append_assoc q.front_calls (on_disconnect client ∷ []) _;
}
ran front (client_packet_cb client id n name body) q b = record {
  after = _;
  is = if_pass (front.conn_id client == id) _ _ ((==_iff _ _).1 b);
  open_yet = refl;
  left = refl;
  seen = refl;
}
ran front (client_inner_packet_cb client id u n name body) q b = record {
  after = _;
  is = if_pass (front.conn_id client == id) _ _ ((==_iff _ _).1 b);
  open_yet = refl;
  left = refl;
  seen = refl;
}
ran front (isolated_connect_cb isolated) q b = record {
  after = _;
  is = refl;
  open_yet = refl;
  left = refl;
  seen = refl;
}
ran front (isolated_disconnect_cb isolated) q b = record {
  after = _;
  is = refl;
  open_yet = refl;
  left = refl;
  seen = refl;
}
ran front (isolated_packet_cb isolated id n name body) q b = record {
  after = _;
  is = if_pass (front.conn_id isolated == id) _ _ ((==_iff _ _).1 b);
  open_yet = refl;
  left = refl;
  seen = refl;
}
ran front (isolated_inner_packet_cb isolated id u n name body) q b = record {
  after = _;
  is = if_pass (front.conn_id isolated == id) _ _ ((==_iff _ _).1 b);
  open_yet = refl;
  left = refl;
  seen = refl;
}

run_rounds-suc :
    (n : ℕ) (front : Front) (cb : Callback) (rest : List Callback) (q : Queues) {after : Queues}
    → q.close ≡ false
    → run_callback front cb (record q { callbacks = rest }) ≡ some after
    → run_rounds (suc n) front (cb ∷ rest) q ≡ run_rounds n front rest after
unfolding run_rounds next_callback
run_rounds-suc n front cb rest q open_yet is =
    if_fail q.close _ _ open_yet
    ∙ ap (λ found. found >>= (λ q'. run_rounds n front rest q')) (if_fail q.close _ _ open_yet ∙ is)

-- The rounds below the waterline, on a queue that is open.
pub run_rounds_lem :
    (n : ℕ) (front : Front) (cbs : List Callback) (q : Queues)
    → q.close ≡ false
    → q.callbacks ≡ cbs
    → AllBound front.conn_id cbs
    → (q' : Queues) × (run_rounds n front cbs q ≡ some q')
      × (q'.callbacks ≡ drop n cbs)
      × (q'.front_calls ≡ q.front_calls ++ all_handled front (take n cbs))
unfolding run_rounds next_callback all_handled AllBound
run_rounds_lem zero front cbs q open_yet e b = (q, refl, e, sym (append-nil q.front_calls))
run_rounds_lem (suc n) front [] q open_yet e b = (q, refl, e, sym (append-nil q.front_calls))
run_rounds_lem (suc n) front (cb ∷ rest) q open_yet e (bound, bounds) =
    let now = ran front cb (record q { callbacks = rest }) bound in
    let (q', is, left, seen) =
      run_rounds_lem n front rest now.after (now.open_yet ∙ open_yet) now.left bounds in
    (
      q',
      run_rounds-suc n front cb rest q open_yet now.is ∙ is,
      left,
      seen
          ∙ ap (λ x. x ++ all_handled front (take n rest)) now.seen
          ∙ append_assoc q.front_calls (handled front cb) (all_handled front (take n rest)),
    )
