-- ===== src/Queues/Requests.antt =====
-- The commands that a connection counts are those of the types that dispose of it, post a packet to it,
-- confirm it or delay it, and their result counts the same connection as done.
use netsystem.Base.{
  ℕ, ◌+◌, ◌≡◌, refl, ap₂, subst, Bool, true, false, List, [], ◌∷◌, ◌++◌, if◌then◌else◌, if-both,
  if_some, some, some_eq, count, if_cases, inl, inr,
}
use netsystem.Queues.{
  CommandType, cmd_open_tcp_server, cmd_close_tcp_server, cmd_dispose_connection, cmd_post_packet,
  cmd_flush_tcp_server_down_stream, cmd_confirm_client_is_ready, cmd_post_broadcast_packet,
  cmd_isolated_conn_connect, cmd_isolated_delay_reconnect, ResultCb, ignore, consume, answer,
  Command, Callback, accept_client_cb, client_disconnect_cb, client_packet_cb,
  client_inner_packet_cb, isolated_connect_cb, isolated_disconnect_cb, isolated_packet_cb,
  isolated_inner_packet_cb, Queues, new_queues, change, incr_front_end_produce_num,
  incr_back_end_consume_num, incr_back_end_produce_num, incr_front_end_consume_num,
}
use netsystem.Queues.Work.{
  commit, add, blocking_commit, finish, World, run_result_cb, work_off, next_command, calls_for,
  result_for, open_tcp_server, close_tcp_server, flush_tcp_server_down_stream, dispose_connection,
  post_packet, confirm_client_is_ready, post_broadcast_packet, isolated_conn_connect,
  isolated_conn_delay_reconnect,
}
use netsystem.Queues.Trunk.{
  camel_add, trunk_add, Front, run_callback, next_callback, close, add_accept_client_cb,
  add_client_disconnect_cb, add_client_packet_cb, add_client_inner_packet_cb,
  add_isolated_connect_cb, add_isolated_disconnect_cb, add_isolated_packet_cb,
  add_isolated_inner_packet_cb,
}
use netsystem.Queues.System.{
  Reach, start, opens, closes, flushes, disposes, posts, confirms, broadcasts, connects, delays,
  finishes, works, accepts, disconnects, receives, receives_inner, isolated_connects,
  isolated_disconnects, isolated_receives, isolated_receives_inner, closes_trunk, runs,
}
use netsystem.Queues.Balance.{consumer, waiting_commands}

-- The connection that counts a command, by its type.
abbrev pub requested : CommandType → (handle : ℕ) → List ℕ
requested cmd_dispose_connection handle = handle ∷ []
requested cmd_post_packet handle = handle ∷ []
requested cmd_confirm_client_is_ready handle = handle ∷ []
requested cmd_isolated_delay_reconnect handle = handle ∷ []
requested _ handle = []

-- How many commands of these types wait for a connection.
unfoldable pub waiting_requests : ℕ → List Command → ℕ
waiting_requests c [] = 0
waiting_requests c (cmd ∷ cmds) = count c (requested cmd.type cmd.handle) + waiting_requests c cmds

unfoldable AllMatch : List Command → Type 0
AllMatch [] = Unit {0}
AllMatch (cmd ∷ cmds) = (consumer cmd.result_cb ≡ requested cmd.type cmd.handle) × AllMatch cmds

abbrev Matched : Queues → Type 0
Matched q = AllMatch q.commands

AllMatch-snoc :
    (cmd : Command) (cmds : List Command)
    → consumer cmd.result_cb ≡ requested cmd.type cmd.handle
    → AllMatch cmds
    → AllMatch (cmds ++ (cmd ∷ []))
unfolding AllMatch
AllMatch-snoc cmd [] b bs = (b, tt)
AllMatch-snoc cmd (x ∷ cmds) b (bx, bs) = (bx, AllMatch-snoc cmd cmds b bs)

either-Matched :
    (d k : Bool) (x y : Queues)
    → Matched x
    → Matched y
    → Matched
        (if◌then◌else◌ {A = Bool × Queues} d (false, y) (if k then (true, x) else (false, y))).1
either-Matched true k x y bx by = by
either-Matched false true x y bx by = bx
either-Matched false false x y bx by = by

commit-Matched :
    (ok : Bool) (t : CommandType) (h : ℕ) (ts : List ℕ) (s u n : ℕ) (name body : List ℕ)
    (cb : ResultCb) (q : Queues)
    → consumer cb ≡ requested t h
    → Matched q
    → Matched (commit ok t h ts s u n name body cb q)
unfolding commit add
commit-Matched ok t h ts s u n name body cb q e b =
    either-Matched q.done ok _ _ (AllMatch-snoc _ q.commands e b) b

counted-Matched :
    (ok : Bool) (t : CommandType) (h : ℕ) (ts : List ℕ) (s u n : ℕ) (name body : List ℕ) (conn : ℕ)
    (q : Queues)
    → conn ∷ [] ≡ requested t h
    → Matched q
    → Matched (commit ok t h ts s u n name body (consume conn) (incr_front_end_produce_num conn q))
unfolding incr_front_end_produce_num change
counted-Matched ok t h ts s u n name body conn q e b =
    commit-Matched ok t h ts s u n name body (consume conn) (incr_front_end_produce_num conn q) e b

blocking_commit-Matched :
    (ok : Bool) (t : CommandType) (h : ℕ) (ip : List ℕ) (port : ℕ) (q : Queues)
    → [] ≡ requested t h
    → Matched q
    → Matched (blocking_commit ok t h ip port q).1
unfolding blocking_commit add
blocking_commit-Matched ok t h ip port q e b =
    either-Matched q.done ok _ _ (AllMatch-snoc _ q.commands e b) b

trunk_add-Matched :
    (ok : Bool) (cb : Callback) (conn : ℕ) (q : Queues)
    → Matched q
    → Matched (trunk_add ok cb (incr_back_end_produce_num conn q))
unfolding trunk_add camel_add incr_back_end_produce_num change
trunk_add-Matched ok cb conn q b = either-Matched q.close ok _ _ b b

accept-Matched :
    (ok : Bool) (server streamptr : ℕ) (ip : List ℕ) (q : Queues)
    → Matched q
    → Matched (trunk_add ok (accept_client_cb server streamptr ip) q)
unfolding trunk_add camel_add
accept-Matched ok server streamptr ip q b = either-Matched q.close ok _ _ b b

run_result_cb-Matched :
    (cb : ResultCb) (r : ℕ) (q : Queues) → Matched q → Matched (run_result_cb cb r q)
unfolding run_result_cb incr_back_end_consume_num change
run_result_cb-Matched ignore r q b = b
run_result_cb-Matched (consume conn) r q b = b
run_result_cb-Matched (answer sn) r q b = b

next_command-Matched :
    (world : World) (cmds : List Command) (q : Queues)
    → q.commands ≡ cmds
    → Matched q
    → Matched (next_command world cmds q)
unfolding next_command work_off AllMatch
next_command-Matched world [] q e b = b
next_command-Matched world (cmd ∷ rest) q e b =
    let (_, bs) = subst AllMatch e b in
    run_result_cb-Matched cmd.result_cb (result_for world cmd cmd.type)
      (record q { commands = rest; back_calls = q.back_calls ++ calls_for world cmd cmd.type }) bs

run_callback-Matched :
    (front : Front) (cb : Callback) (q : Queues) {q' : Queues}
    → Matched q
    → run_callback front cb q ≡ some q'
    → Matched q'
unfolding run_callback incr_front_end_consume_num change flush_tcp_server_down_stream
run_callback-Matched front (accept_client_cb server streamptr ip) q b e =
    subst Matched (some_eq e) (
      if-both Matched (front.is_closed (accept_client_cb server streamptr ip))
        (λ _. commit-Matched _ cmd_flush_tcp_server_down_stream _ _ _ _ _ _ _ ignore q refl b)
        (λ _. b))
run_callback-Matched front (client_disconnect_cb server client) q b e = subst Matched (some_eq e) b
run_callback-Matched front (client_packet_cb client conn_id serial_no name body) q b e =
    subst Matched (some_eq (if_some _ e).1) b
run_callback-Matched front (client_inner_packet_cb client conn_id uuid serial_no name body) q b e =
    subst Matched (some_eq (if_some _ e).1) b
run_callback-Matched front (isolated_connect_cb isolated) q b e = subst Matched (some_eq e) b
run_callback-Matched front (isolated_disconnect_cb isolated) q b e = subst Matched (some_eq e) b
run_callback-Matched front (isolated_packet_cb isolated conn_id serial_no name body) q b e =
    subst Matched (some_eq (if_some _ e).1) b
run_callback-Matched front (isolated_inner_packet_cb isolated conn_id uuid serial_no name body) q b
      e =
    subst Matched (some_eq (if_some _ e).1) b

next_callback-Matched :
    (front : Front) (cbs : List Callback) (q : Queues) {q' : Queues}
    → Matched q
    → next_callback front cbs q ≡ some q'
    → Matched q'
unfolding next_callback
next_callback-Matched front [] q b e = subst Matched (some_eq e) b
next_callback-Matched front (cb ∷ rest) q b e = elim (if_cases q.close _ _ e) [
  | inl (_, same) ↦ subst Matched (some_eq same) b
  | inr (_, ran) ↦ run_callback-Matched front cb (record q { callbacks = rest }) b ran
]

Reach-Matched : {conn_id : ℕ → ℕ} {l m : List ℕ} {q : Queues} → Reach conn_id l m q → Matched q
unfolding open_tcp_server close_tcp_server flush_tcp_server_down_stream dispose_connection
    post_packet confirm_client_is_ready post_broadcast_packet isolated_conn_connect
    isolated_conn_delay_reconnect finish close add_accept_client_cb add_client_disconnect_cb
    add_client_packet_cb add_client_inner_packet_cb add_isolated_connect_cb
    add_isolated_disconnect_cb add_isolated_packet_cb add_isolated_inner_packet_cb
Reach-Matched start = unfold new_queues AllMatch in tt
Reach-Matched (opens {l} {m} {q} ok server port r) =
    blocking_commit-Matched ok cmd_open_tcp_server server [] port q refl (Reach-Matched r)
Reach-Matched (closes {l} {m} {q} ok server r) =
    blocking_commit-Matched ok cmd_close_tcp_server server [] 0 q refl (Reach-Matched r)
Reach-Matched (flushes {l} {m} {q} ok server streamptr r) =
    commit-Matched ok cmd_flush_tcp_server_down_stream server _ _ _ _ _ _ ignore q refl
      (Reach-Matched r)
Reach-Matched (disposes {l} {m} {q} ok conn r) =
    counted-Matched ok cmd_dispose_connection conn _ _ _ _ _ _ conn q refl (Reach-Matched r)
Reach-Matched (posts {l} {m} {q} ok client uuid serial_no name body r) =
    counted-Matched ok cmd_post_packet client _ _ _ _ _ _ client q refl (Reach-Matched r)
Reach-Matched (confirms {l} {m} {q} ok client streamptr r) =
    counted-Matched ok cmd_confirm_client_is_ready client _ _ _ _ _ _ client q refl
      (Reach-Matched r)
Reach-Matched (broadcasts {l} {m} {q} ok server targets name body r) =
    commit-Matched ok cmd_post_broadcast_packet server _ _ _ _ _ _ ignore q refl (Reach-Matched r)
Reach-Matched (connects {l} {m} {q} ok isolated ip port r) =
    blocking_commit-Matched ok cmd_isolated_conn_connect isolated ip port q refl (Reach-Matched r)
Reach-Matched (delays {l} {m} {q} ok isolated seconds r) =
    counted-Matched ok cmd_isolated_delay_reconnect isolated _ _ _ _ _ _ isolated q refl
      (Reach-Matched r)
Reach-Matched (finishes r) = Reach-Matched r
Reach-Matched (works {l} {m} {q} world r) =
    next_command-Matched world q.commands q refl (Reach-Matched r)
Reach-Matched (accepts {l} {m} {q} ok server streamptr ip r) =
    accept-Matched ok server streamptr ip q (Reach-Matched r)
Reach-Matched (disconnects {l} {m} {q} ok server client r) =
    trunk_add-Matched ok _ client q (Reach-Matched r)
Reach-Matched (receives {l} {m} {q} ok client serial_no name body r) =
    trunk_add-Matched ok _ client q (Reach-Matched r)
Reach-Matched (receives_inner {l} {m} {q} ok client uuid serial_no name body r) =
    trunk_add-Matched ok _ client q (Reach-Matched r)
Reach-Matched (isolated_connects {l} {m} {q} ok is_connected isolated r e) =
    elim (if_cases is_connected _ _ e) [
      | inl (_, never) ↦ cc
      | inr (_, added) ↦
          subst Matched (some_eq added) (trunk_add-Matched ok _ isolated q (Reach-Matched r))
    ]
Reach-Matched (isolated_disconnects {l} {m} {q} ok isolated r) =
    trunk_add-Matched ok _ isolated q (Reach-Matched r)
Reach-Matched (isolated_receives {l} {m} {q} ok isolated serial_no name body r) =
    trunk_add-Matched ok _ isolated q (Reach-Matched r)
Reach-Matched (isolated_receives_inner {l} {m} {q} ok isolated uuid serial_no name body r) =
    trunk_add-Matched ok _ isolated q (Reach-Matched r)
Reach-Matched (closes_trunk r) = Reach-Matched r
Reach-Matched (runs {l} {m} {q} front same r e) =
    next_callback-Matched front q.callbacks q (Reach-Matched r) e

waiting_requests-waiting_commands :
    (c : ℕ) (cmds : List Command)
    → AllMatch cmds
    → waiting_commands c cmds ≡ waiting_requests c cmds
unfolding waiting_commands waiting_requests AllMatch
waiting_requests-waiting_commands c [] b = refl
waiting_requests-waiting_commands c (cmd ∷ cmds) (b, bs) =
    ap₂ (λ xs n. count c xs + n) b (waiting_requests-waiting_commands c cmds bs)

pub Reach-waiting_requests :
    {conn_id : ℕ → ℕ} {l m : List ℕ} {q : Queues} (c : ℕ)
    → Reach conn_id l m q
    → waiting_commands c q.commands ≡ waiting_requests c q.commands
Reach-waiting_requests {q} c r = waiting_requests-waiting_commands c q.commands (Reach-Matched r)
