-- ===== src/Queues/Trunk.antt =====
-- src/tcp/kj/ConnFactoryTrunkQueue.cpp and src/base/CamelReaderWriterQueueWL.cpp: the callbacks of the
-- back end to the front end. A failed assertion is `none`.
use netsystem.Base.{
  ℕ, zero, suc, ◌+◌, ◌%◌, Bool, true, false, List, [], ◌∷◌, ◌++◌, if◌then◌else◌, Option, none, some,
  ◌>>=◌, ◌==◌,
}
use netsystem.Queues.{
  Callback, accept_client_cb, client_disconnect_cb, client_packet_cb, client_inner_packet_cb,
  isolated_connect_cb, isolated_disconnect_cb, isolated_packet_cb, isolated_inner_packet_cb,
  FrontCall, on_accept_client, on_connect, on_disconnect, on_remove_client, on_packet,
  on_inner_packet, Queues, incr_back_end_produce_num, incr_front_end_consume_num,
}
use netsystem.Queues.Work.{flush_tcp_server_down_stream}

-- RWQUEUE_CONSUME_WATERLINE of a release build
abbrev pub consume_waterline : ℕ
consume_waterline = 2048

-- `CCamelReaderWriterQueueWL::Add`, whose pause of a long queue is left out. `enqueued` is whether the
-- lock-free queue found room.
unfoldable pub camel_add : (enqueued : Bool) → Callback → Queues → Bool × Queues
camel_add enqueued cb q =
    if q.close
    then (false, q)
    else (if enqueued
        then (true, record q { callbacks = q.callbacks ++ (cb ∷ []) })
        else (false, q))

unfoldable pub close : Queues → Queues
close q = record q { close = true }

-- `CConnFactoryTrunkQueue::Add`: whether the callback was taken is not asked.
unfoldable pub trunk_add : (enqueued : Bool) → Callback → Queues → Queues
trunk_add enqueued cb q =
    let q = (camel_add enqueued cb q).1 in
    record q { trunk_op_code_send = (q.trunk_op_code_send + 1) % 256 }

unfoldable pub add_accept_client_cb :
    (enqueued : Bool) (server streamptr : ℕ) (peer_ip : List ℕ) → Queues → Queues
add_accept_client_cb enqueued server streamptr peer_ip q =
    trunk_add enqueued (accept_client_cb server streamptr peer_ip) q

unfoldable pub add_client_disconnect_cb : (enqueued : Bool) (server client : ℕ) → Queues → Queues
add_client_disconnect_cb enqueued server client q =
    trunk_add enqueued (client_disconnect_cb server client) (incr_back_end_produce_num client q)

unfoldable pub add_client_packet_cb :
    (enqueued : Bool) (client conn_id serial_no : ℕ) (type_name body : List ℕ) → Queues → Queues
add_client_packet_cb enqueued client conn_id serial_no type_name body q =
    trunk_add enqueued (client_packet_cb client conn_id serial_no type_name body)
      (incr_back_end_produce_num client q)

unfoldable pub add_client_inner_packet_cb :
    (enqueued : Bool) (client conn_id uuid serial_no : ℕ) (type_name body : List ℕ)
    → Queues
    → Queues
add_client_inner_packet_cb enqueued client conn_id uuid serial_no type_name body q =
    trunk_add enqueued (client_inner_packet_cb client conn_id uuid serial_no type_name body)
      (incr_back_end_produce_num client q)

unfoldable pub add_isolated_connect_cb :
    (enqueued is_connected : Bool) (isolated : ℕ) → Queues → Option Queues
add_isolated_connect_cb enqueued is_connected isolated q =
    if is_connected
    then none
    else some
        (trunk_add enqueued (isolated_connect_cb isolated) (incr_back_end_produce_num isolated q))

unfoldable pub add_isolated_disconnect_cb : (enqueued : Bool) (isolated : ℕ) → Queues → Queues
add_isolated_disconnect_cb enqueued isolated q =
    trunk_add enqueued (isolated_disconnect_cb isolated) (incr_back_end_produce_num isolated q)

unfoldable pub add_isolated_packet_cb :
    (enqueued : Bool) (isolated conn_id serial_no : ℕ) (type_name body : List ℕ) → Queues → Queues
add_isolated_packet_cb enqueued isolated conn_id serial_no type_name body q =
    trunk_add enqueued (isolated_packet_cb isolated conn_id serial_no type_name body)
      (incr_back_end_produce_num isolated q)

unfoldable pub add_isolated_inner_packet_cb :
    (enqueued : Bool) (isolated conn_id uuid serial_no : ℕ) (type_name body : List ℕ)
    → Queues
    → Queues
add_isolated_inner_packet_cb enqueued isolated conn_id uuid serial_no type_name body q =
    trunk_add enqueued (isolated_inner_packet_cb isolated conn_id uuid serial_no type_name body)
      (incr_back_end_produce_num isolated q)

-- What the front end finds when it runs a callback: the ids of the connections, whether the server is
-- closed, and whether the work queue has room.
pub record Front : Type 0 where
  pub conn_id : ℕ → ℕ
  pub is_closed : Callback → Bool
  pub enqueues : Callback → Bool

abbrev front_call : FrontCall → Queues → Queues
front_call c q = record q { front_calls = q.front_calls ++ (c ∷ []) }

-- The bodies of the closures.
unfoldable pub run_callback : Front → Callback → Queues → Option Queues
run_callback front (accept_client_cb server streamptr peer_ip) q =
    let cb = accept_client_cb server streamptr peer_ip in
    some (
      if front.is_closed cb
      then flush_tcp_server_down_stream (front.enqueues cb) server streamptr q
      else front_call (on_accept_client server streamptr peer_ip) q)
run_callback front (client_disconnect_cb server client) q =
    let q = incr_front_end_consume_num client q in
    some (front_call (on_remove_client server client) (front_call (on_disconnect client) q))
run_callback front (client_packet_cb client conn_id serial_no type_name body) q =
    let q = incr_front_end_consume_num client q in
    if front.conn_id client == conn_id
    then some (front_call (on_packet client serial_no type_name body) q)
    else none
run_callback front (client_inner_packet_cb client conn_id uuid serial_no type_name body) q =
    let q = incr_front_end_consume_num client q in
    if front.conn_id client == conn_id
    then some (front_call (on_inner_packet client uuid serial_no type_name body) q)
    else none
run_callback front (isolated_connect_cb isolated) q =
    some (front_call (on_connect isolated) (incr_front_end_consume_num isolated q))
run_callback front (isolated_disconnect_cb isolated) q =
    some (front_call (on_disconnect isolated) (incr_front_end_consume_num isolated q))
run_callback front (isolated_packet_cb isolated conn_id serial_no type_name body) q =
    let q = incr_front_end_consume_num isolated q in
    if front.conn_id isolated == conn_id
    then some (front_call (on_packet isolated serial_no type_name body) q)
    else none
run_callback front (isolated_inner_packet_cb isolated conn_id uuid serial_no type_name body) q =
    let q = incr_front_end_consume_num isolated q in
    if front.conn_id isolated == conn_id
    then some (front_call (on_inner_packet isolated uuid serial_no type_name body) q)
    else none

-- One round of the `while` of `RunOnce` below the waterline, with the entries of the queue.
unfoldable pub next_callback : Front → List Callback → Queues → Option Queues
next_callback front [] q = some q
next_callback front (cb ∷ rest) q =
    if q.close then some q else run_callback front cb (record q { callbacks = rest })

-- The rounds that are left below the waterline, if the back end adds nothing meanwhile.
unfoldable pub run_rounds : ℕ → Front → List Callback → Queues → Option Queues
run_rounds zero front cbs q = some q
run_rounds (suc n) front [] q = some q
run_rounds (suc n) front (cb ∷ rest) q =
    if q.close
    then some q
    else next_callback front (cb ∷ rest) q >>= (λ q'. run_rounds n front rest q')

unfoldable pub run_once : Front → Queues → Option Queues
run_once front q = run_rounds consume_waterline front q.callbacks q
