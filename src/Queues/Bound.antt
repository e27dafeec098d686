-- ===== src/Queues/Bound.antt =====
-- In every state that the threads reach, the callbacks that wait bring along the ids of their
-- connections, so `RunOnce` runs into no assertion.
use netsystem.Base.{
  ℕ, ◌≡◌, refl, sym, ◌∙◌, subst, Bool, true, false, List, [], ◌∷◌, ◌++◌, if◌then◌else◌, take, drop,
  some, some_eq, if_cases, inl, inr,
}
use netsystem.Queues.{
  CommandType, ResultCb, ignore, consume, answer, Command, Callback, accept_client_cb,
  client_packet_cb, client_inner_packet_cb, isolated_packet_cb, isolated_inner_packet_cb, Queues,
  new_queues, change, incr_front_end_produce_num, incr_back_end_consume_num,
  incr_back_end_produce_num,
}
use netsystem.Queues.Work.{
  commit, add, blocking_commit, finish, World, run_result_cb, work_off, next_command, calls_for,
  result_for, open_tcp_server, close_tcp_server, flush_tcp_server_down_stream, dispose_connection,
  post_packet, confirm_client_is_ready, post_broadcast_packet, isolated_conn_connect,
  isolated_conn_delay_reconnect,
}
use netsystem.Queues.Trunk.{
  camel_add, trunk_add, consume_waterline, Front, next_callback, run_once, close,
  add_accept_client_cb, add_client_disconnect_cb, add_client_packet_cb, add_client_inner_packet_cb,
  add_isolated_connect_cb, add_isolated_disconnect_cb, add_isolated_packet_cb,
  add_isolated_inner_packet_cb,
}
use netsystem.Queues.System.{
  Reach, start, opens, closes, flushes, disposes, posts, confirms, broadcasts, connects, delays,
  finishes, works, accepts, disconnects, receives, receives_inner, isolated_connects,
  isolated_disconnects, isolated_receives, isolated_receives_inner, closes_trunk, runs,
}
use netsystem.Queues.Callbacks.{
  IsBound, AllBound, all_handled, Kept, commit-Kept, ran, run_rounds_lem,
}

module _ (conn_id : ℕ → ℕ) where
  AllBound-snoc :
      (cb : Callback) (cbs : List Callback)
      → IsBound conn_id cb
      → AllBound conn_id cbs
      → AllBound conn_id (cbs ++ (cb ∷ []))
  unfolding AllBound
  AllBound-snoc cb [] b bs = (b, tt)
  AllBound-snoc cb (x ∷ cbs) b (bx, bs) = (bx, AllBound-snoc cb cbs b bs)

  abbrev Fits : Queues → Type 0
  Fits q = AllBound conn_id q.callbacks

  either-Fits :
      (d k : Bool) (x y : Queues)
      → Fits x
      → Fits y
      → Fits
          (if◌then◌else◌ {A = Bool × Queues} d (false, y) (if k then (true, x) else (false, y))).1
  either-Fits true k x y bx by = by
  either-Fits false true x y bx by = bx
  either-Fits false false x y bx by = by

  trunk_add-Fits :
      (ok : Bool) (cb : Callback) (conn : ℕ) (q : Queues)
      → IsBound conn_id cb
      → Fits q
      → Fits (trunk_add ok cb (incr_back_end_produce_num conn q))
  unfolding trunk_add camel_add incr_back_end_produce_num change
  trunk_add-Fits ok cb conn q b bs =
      either-Fits q.close ok _ _ (AllBound-snoc cb q.callbacks b bs) bs

  accept-Fits :
      (ok : Bool) (server streamptr : ℕ) (ip : List ℕ) (q : Queues)
      → Fits q
      → Fits (trunk_add ok (accept_client_cb server streamptr ip) q)
  unfolding trunk_add camel_add
  accept-Fits ok server streamptr ip q bs =
      either-Fits q.close ok _ _
        (AllBound-snoc (accept_client_cb server streamptr ip) q.callbacks tt bs) bs

  Kept-Fits : (q q' : Queues) → Kept q q' → Fits q → Fits q'
  Kept-Fits q q' kept = subst (AllBound conn_id) (sym kept.left)

  commit-Fits :
      (ok : Bool) (t : CommandType) (h : ℕ) (ts : List ℕ) (s u n : ℕ) (name body : List ℕ)
      (cb : ResultCb) (q : Queues)
      → Fits q
      → Fits (commit ok t h ts s u n name body cb q)
  commit-Fits ok t h ts s u n name body cb q =
      Kept-Fits q _ (commit-Kept ok t h ts s u n name body cb q)

  counted-Fits :
      (ok : Bool) (t : CommandType) (h : ℕ) (ts : List ℕ) (s u n : ℕ) (name body : List ℕ)
      (cb : ResultCb) (conn : ℕ) (q : Queues)
      → Fits q
      → Fits (commit ok t h ts s u n name body cb (incr_front_end_produce_num conn q))
  unfolding incr_front_end_produce_num change
  counted-Fits ok t h ts s u n name body cb conn q =
      commit-Fits ok t h ts s u n name body cb (incr_front_end_produce_num conn q)

  blocking_commit-Fits :
      (ok : Bool) (t : CommandType) (h : ℕ) (ip : List ℕ) (port : ℕ) (q : Queues)
      → Fits q
      → Fits (blocking_commit ok t h ip port q).1
  unfolding blocking_commit add
  blocking_commit-Fits ok t h ip port q bs = either-Fits q.done ok _ _ bs bs

  run_result_cb-Fits : (cb : ResultCb) (r : ℕ) (q : Queues) → Fits q → Fits (run_result_cb cb r q)
  unfolding run_result_cb incr_back_end_consume_num change
  run_result_cb-Fits ignore r q bs = bs
  run_result_cb-Fits (consume conn) r q bs = bs
  run_result_cb-Fits (answer sn) r q bs = bs

  next_command-Fits :
      (world : World) (cmds : List Command) (q : Queues) → Fits q → Fits (next_command world cmds q)
  unfolding next_command work_off
  next_command-Fits world [] q bs = bs
  next_command-Fits world (cmd ∷ rest) q bs =
      run_result_cb-Fits cmd.result_cb (result_for world cmd cmd.type)
        (record q { commands = rest; back_calls = q.back_calls ++ calls_for world cmd cmd.type }) bs

next_callback-Fits :
    (front : Front) (cbs : List Callback) (q : Queues) {q' : Queues}
    → q.callbacks ≡ cbs
    → AllBound front.conn_id q.callbacks
    → next_callback front cbs q ≡ some q'
    → AllBound front.conn_id q'.callbacks
unfolding next_callback AllBound
next_callback-Fits front [] q is bs e =
    subst (λ x. AllBound front.conn_id x.callbacks) (some_eq e) bs
next_callback-Fits front (cb ∷ rest) q is bs e = elim (if_cases q.close _ _ e) [
  | inl (_, same) ↦ subst (λ x. AllBound front.conn_id x.callbacks) (some_eq same) bs
  | inr (_, done) ↦
      let (bound, bounds) = subst (AllBound front.conn_id) is bs in
      let now = ran front cb (record q { callbacks = rest }) bound in
      let same = some_eq (sym now.is ∙ done) in
      subst (λ x. AllBound front.conn_id x.callbacks) same
        (subst (AllBound front.conn_id) (sym now.left) bounds)
]

Reach-AllBound :
    {conn_id : ℕ → ℕ} {l m : List ℕ} {q : Queues}
    → Reach conn_id l m q
    → AllBound conn_id q.callbacks
unfolding open_tcp_server close_tcp_server flush_tcp_server_down_stream dispose_connection
    post_packet confirm_client_is_ready post_broadcast_packet isolated_conn_connect
    isolated_conn_delay_reconnect finish close add_accept_client_cb add_client_disconnect_cb
    add_client_packet_cb add_client_inner_packet_cb add_isolated_connect_cb
    add_isolated_disconnect_cb add_isolated_packet_cb add_isolated_inner_packet_cb
Reach-AllBound {conn_id} start = (unfold new_queues AllBound in tt)
Reach-AllBound {conn_id} (opens {l} {m} {q} ok server port r) =
    blocking_commit-Fits conn_id ok _ _ _ _ q (Reach-AllBound r)
Reach-AllBound {conn_id} (closes {l} {m} {q} ok server r) =
    blocking_commit-Fits conn_id ok _ _ _ _ q (Reach-AllBound r)
Reach-AllBound {conn_id} (flushes {l} {m} {q} ok server streamptr r) =
    commit-Fits conn_id ok _ _ _ _ _ _ _ _ _ q (Reach-AllBound r)
Reach-AllBound {conn_id} (disposes {l} {m} {q} ok conn r) =
    counted-Fits conn_id ok _ _ _ _ _ _ _ _ _ conn q (Reach-AllBound r)
Reach-AllBound {conn_id} (posts {l} {m} {q} ok client uuid serial_no name body r) =
    counted-Fits conn_id ok _ _ _ _ _ _ _ _ _ client q (Reach-AllBound r)
Reach-AllBound {conn_id} (confirms {l} {m} {q} ok client streamptr r) =
    counted-Fits conn_id ok _ _ _ _ _ _ _ _ _ client q (Reach-AllBound r)
Reach-AllBound {conn_id} (broadcasts {l} {m} {q} ok server targets name body r) =
    commit-Fits conn_id ok _ _ _ _ _ _ _ _ _ q (Reach-AllBound r)
Reach-AllBound {conn_id} (connects {l} {m} {q} ok isolated ip port r) =
    blocking_commit-Fits conn_id ok _ _ _ _ q (Reach-AllBound r)
Reach-AllBound {conn_id} (delays {l} {m} {q} ok isolated seconds r) =
    counted-Fits conn_id ok _ _ _ _ _ _ _ _ _ isolated q (Reach-AllBound r)
Reach-AllBound {conn_id} (finishes r) = Reach-AllBound r
Reach-AllBound {conn_id} (works {l} {m} {q} world r) =
    next_command-Fits conn_id world q.commands q (Reach-AllBound r)
Reach-AllBound {conn_id} (accepts {l} {m} {q} ok server streamptr ip r) =
    accept-Fits conn_id ok server streamptr ip q (Reach-AllBound r)
Reach-AllBound {conn_id} (disconnects {l} {m} {q} ok server client r) =
    trunk_add-Fits conn_id ok _ client q tt (Reach-AllBound r)
Reach-AllBound {conn_id} (receives {l} {m} {q} ok client serial_no name body r) =
    trunk_add-Fits conn_id ok (client_packet_cb client (conn_id client) serial_no name body) client
      q refl (Reach-AllBound r)
Reach-AllBound {conn_id} (receives_inner {l} {m} {q} ok client uuid serial_no name body r) =
    trunk_add-Fits conn_id ok
      (client_inner_packet_cb client (conn_id client) uuid serial_no name body) client q refl
      (Reach-AllBound r)
Reach-AllBound {conn_id} (isolated_connects {l} {m} {q} ok is_connected isolated r e) =
    elim (if_cases is_connected _ _ e) [
      | inl (_, never) ↦ cc
      | inr (_, added) ↦
          subst (λ x. AllBound conn_id x.callbacks) (some_eq added)
            (trunk_add-Fits conn_id ok _ isolated q tt (Reach-AllBound r))
    ]
Reach-AllBound {conn_id} (isolated_disconnects {l} {m} {q} ok isolated r) =
    trunk_add-Fits conn_id ok _ isolated q tt (Reach-AllBound r)
Reach-AllBound {conn_id} (isolated_receives {l} {m} {q} ok isolated serial_no name body r) =
    trunk_add-Fits conn_id ok (isolated_packet_cb isolated (conn_id isolated) serial_no name body)
      isolated q refl (Reach-AllBound r)
Reach-AllBound {conn_id}
      (isolated_receives_inner {l} {m} {q} ok isolated uuid serial_no name body r) =
    trunk_add-Fits conn_id ok
      (isolated_inner_packet_cb isolated (conn_id isolated) uuid serial_no name body) isolated q
      refl (Reach-AllBound r)
Reach-AllBound {conn_id} (closes_trunk r) = Reach-AllBound r
Reach-AllBound {conn_id} (runs {l} {m} {q} {q'} front same r e) =
    subst (λ ids. AllBound ids q'.callbacks) same
      (next_callback-Fits front q.callbacks q refl
        (subst (λ ids. AllBound ids q.callbacks) (sym same) (Reach-AllBound r)) e)

-- However the two threads take turns: when the front end updates while the trunk queue is open, no
-- assertion fails, and `RunOnce` runs the callbacks that wait, in the order in which the back end added
-- them, up to the waterline of 2048. The others stay for the next time.
pub Reach-run_once :
    {conn_id : ℕ → ℕ} {l m : List ℕ} {q : Queues} (front : Front)
    → front.conn_id ≡ conn_id
    → Reach conn_id l m q
    → q.close ≡ false
    → (q' : Queues) × (run_once front q ≡ some q')
      × (q'.callbacks ≡ drop consume_waterline q.callbacks)
      × (q'.front_calls ≡ q.front_calls ++ all_handled front (take consume_waterline q.callbacks))
unfolding run_once
Reach-run_once {q} front same r open_yet =
    run_rounds_lem consume_waterline front q.callbacks q open_yet refl
      (subst (λ ids. AllBound ids q.callbacks) (sym same) (Reach-AllBound r))
