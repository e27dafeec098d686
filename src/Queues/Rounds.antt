-- ===== src/Queues/Rounds.antt =====
-- One command worked off and one callback run keep the counters of a connection in balance.
use netsystem.Base.{
  ℕ, ◌≡◌, refl, ap, subst, List, [], ◌∷◌, ◌++◌, count, count-nil, arith, some, some_eq, if_some,
  if-both, inl, inr, if_cases,
}
use netsystem.Queues.{
  ResultCb, ignore, consume, answer, Command, Callback, accept_client_cb, client_disconnect_cb,
  client_packet_cb, client_inner_packet_cb, isolated_connect_cb, isolated_disconnect_cb,
  isolated_packet_cb, isolated_inner_packet_cb, Queues, change, incr_back_end_consume_num,
  incr_front_end_consume_num,
}
use netsystem.Queues.Work.{
  World, run_result_cb, work_off, next_command, calls_for, result_for, flush_tcp_server_down_stream,
}
use netsystem.Queues.Trunk.{Front, run_callback, next_callback}
use netsystem.Queues.Balance.{
  waiting_commands, waiting_callbacks, consumer, Balance, Balanced, command-consumed,
  callback-consumed, commit_other-Balanced,
}

module _ (c : ℕ) (l m : List ℕ) where
  run_result_cb-Balanced :
      (cmd : Command) (cb : ResultCb) (r : ℕ) (q : Queues)
      → cmd.result_cb ≡ cb
      → Balance c l m (q.counts c) (cmd ∷ q.commands) q.callbacks
      → Balanced c l m (run_result_cb cb r q)
  unfolding run_result_cb incr_back_end_consume_num change waiting_commands
  run_result_cb-Balanced cmd ignore r q e ((front, fits), back) =
      ((omega (arith, front, count-nil c, ap (λ x. count c (consumer x)) e), fits), back)
  run_result_cb-Balanced cmd (consume conn) r q e b =
      command-consumed c l m conn (q.counts c) q.commands q.callbacks cmd e b
  run_result_cb-Balanced cmd (answer sn) r q e ((front, fits), back) =
      ((omega (arith, front, count-nil c, ap (λ x. count c (consumer x)) e), fits), back)

  pub next_command-Balanced :
      (world : World) (cmds : List Command) (q : Queues)
      → q.commands ≡ cmds
      → Balanced c l m q
      → Balanced c l m (next_command world cmds q)
  unfolding next_command work_off
  next_command-Balanced world [] q e b = b
  next_command-Balanced world (cmd ∷ rest) q e b =
      run_result_cb-Balanced cmd cmd.result_cb (result_for world cmd cmd.type)
        (record q { commands = rest; back_calls = q.back_calls ++ calls_for world cmd cmd.type })
        refl (subst (λ x. Balance c l m (q.counts c) x q.callbacks) e b)

  run_callback-Balanced :
      (front : Front) (cb : Callback) (q : Queues) {q' : Queues}
      → Balance c l m (q.counts c) q.commands (cb ∷ q.callbacks)
      → run_callback front cb q ≡ some q'
      → Balanced c l m q'
  unfolding run_callback incr_front_end_consume_num change flush_tcp_server_down_stream
      waiting_callbacks
  run_callback-Balanced front (accept_client_cb server streamptr ip) q (fr, (back, fits)) e =
      let b : Balanced c l m q = (fr, (omega (arith, back, count-nil c), fits)) in
      subst (Balanced c l m) (some_eq e) (
        if-both (Balanced c l m) (front.is_closed (accept_client_cb server streamptr ip))
          (λ _. commit_other-Balanced c l m _ _ _ _ _ _ _ _ _ q b) (λ _. b))
  run_callback-Balanced front (client_disconnect_cb server client) q b e =
      subst (Balanced c l m) (some_eq e) (
        callback-consumed c l m client (q.counts c) q.commands q.callbacks
          (client_disconnect_cb server client) refl b)
  run_callback-Balanced front (client_packet_cb client conn_id serial_no type_name body) q b e =
      subst (Balanced c l m) (some_eq (if_some _ e).1) (
        callback-consumed c l m client (q.counts c) q.commands q.callbacks
          (client_packet_cb client conn_id serial_no type_name body) refl b)
  run_callback-Balanced front (client_inner_packet_cb client conn_id uuid serial_no type_name body)
        q b e =
      subst (Balanced c l m) (some_eq (if_some _ e).1) (
        callback-consumed c l m client (q.counts c) q.commands q.callbacks
          (client_inner_packet_cb client conn_id uuid serial_no type_name body) refl b)
  run_callback-Balanced front (isolated_connect_cb isolated) q b e =
      subst (Balanced c l m) (some_eq e) (
        callback-consumed c l m isolated (q.counts c) q.commands q.callbacks
          (isolated_connect_cb isolated) refl b)
  run_callback-Balanced front (isolated_disconnect_cb isolated) q b e =
      subst (Balanced c l m) (some_eq e) (
        callback-consumed c l m isolated (q.counts c) q.commands q.callbacks
          (isolated_disconnect_cb isolated) refl b)
  run_callback-Balanced front (isolated_packet_cb isolated conn_id serial_no type_name body) q b e =
      subst (Balanced c l m) (some_eq (if_some _ e).1) (
        callback-consumed c l m isolated (q.counts c) q.commands q.callbacks
          (isolated_packet_cb isolated conn_id serial_no type_name body) refl b)
  run_callback-Balanced front
        (isolated_inner_packet_cb isolated conn_id uuid serial_no type_name body) q b e =
      subst (Balanced c l m) (some_eq (if_some _ e).1) (
        callback-consumed c l m isolated (q.counts c) q.commands q.callbacks
          (isolated_inner_packet_cb isolated conn_id uuid serial_no type_name body) refl b)

  pub next_callback-Balanced :
      (front : Front) (cbs : List Callback) (q : Queues) {q' : Queues}
      → q.callbacks ≡ cbs
      → Balanced c l m q
      → next_callback front cbs q ≡ some q'
      → Balanced c l m q'
  unfolding next_callback
  next_callback-Balanced front [] q is b e = subst (Balanced c l m) (some_eq e) b
  next_callback-Balanced front (cb ∷ rest) q is b e = elim (if_cases q.close _ _ e) [
    | inl (_, same) ↦ subst (Balanced c l m) (some_eq same) b
    | inr (_, ran) ↦
        run_callback-Balanced front cb (record q { callbacks = rest })
          (subst (λ x. Balance c l m (q.counts c) q.commands x) is b) ran
  ]
