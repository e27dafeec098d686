-- ===== src/Queues/Clean.antt =====
-- When the counters of a connection say that no request is on its way.
use netsystem.Base.{
  count, ◌≡◌, ◌<◌, ◌+◌, ◌^◌, ◌↔◌, arith, ◌==◌, Bool, true, false, ◌||◌, not, sym, ◌∙◌, ℕ, refl,
  subst, List, some_eq, inl, inr, if_cases,
}
use netsystem.Queues.{
  client_packet_cb, client_inner_packet_cb, isolated_packet_cb, isolated_inner_packet_cb, Queues,
}
use netsystem.Queues.Work.{
  finish, open_tcp_server, close_tcp_server, flush_tcp_server_down_stream, dispose_connection,
  post_packet, confirm_client_is_ready, post_broadcast_packet, isolated_conn_connect,
  isolated_conn_delay_reconnect,
}
use netsystem.Queues.Trunk.{
  close, add_accept_client_cb, add_client_disconnect_cb, add_client_packet_cb,
  add_client_inner_packet_cb, add_isolated_connect_cb, add_isolated_disconnect_cb,
  add_isolated_packet_cb, add_isolated_inner_packet_cb,
}
use netsystem.Queues.System.{
  Reach, start, opens, closes, flushes, disposes, posts, confirms, broadcasts, connects, delays,
  finishes, works, accepts, disconnects, receives, receives_inner, isolated_connects,
  isolated_disconnects, isolated_receives, isolated_receives_inner, closes_trunk, runs,
}
use netsystem.Queues.Rounds.{next_command-Balanced, next_callback-Balanced}
use netsystem.ConnManager.{Conn, Manager, recycle}
use netsystem.ConnManager.Owned.{deletes}
use netsystem.ConnManager.Recycle.{has_work, recycle_lem}
use netsystem.Queues.{is_front_end_clean, is_back_end_clean}
use netsystem.Queues.Requests.{waiting_requests, Reach-waiting_requests}
use netsystem.Queues.Balance.{
  waiting_callbacks, Even, Balanced, Balanced-new, commit-Balanced, commit_other-Balanced,
  blocking_commit-Balanced, trunk_add-Balanced, accept-Balanced,
}

Reach-Balanced :
    {conn_id : ℕ → ℕ} {l m : List ℕ} {q : Queues} (c : ℕ) → Reach conn_id l m q → Balanced c l m q
unfolding open_tcp_server close_tcp_server flush_tcp_server_down_stream dispose_connection
    post_packet confirm_client_is_ready post_broadcast_packet isolated_conn_connect
    isolated_conn_delay_reconnect finish close add_accept_client_cb add_client_disconnect_cb
    add_client_packet_cb add_client_inner_packet_cb add_isolated_connect_cb
    add_isolated_disconnect_cb add_isolated_packet_cb add_isolated_inner_packet_cb
Reach-Balanced c start = Balanced-new c
Reach-Balanced c (opens {l} {m} {q} ok server port r) =
    blocking_commit-Balanced c l m ok _ _ _ _ q (Reach-Balanced c r)
Reach-Balanced c (closes {l} {m} {q} ok server r) =
    blocking_commit-Balanced c l m ok _ _ _ _ q (Reach-Balanced c r)
Reach-Balanced c (flushes {l} {m} {q} ok server streamptr r) =
    commit_other-Balanced c l m ok _ _ _ _ _ _ _ _ q (Reach-Balanced c r)
Reach-Balanced c (disposes {l} {m} {q} ok conn r) =
    commit-Balanced c l m ok _ _ _ _ _ _ _ _ conn q (Reach-Balanced c r)
Reach-Balanced c (posts {l} {m} {q} ok client uuid serial_no name body r) =
    commit-Balanced c l m ok _ _ _ _ _ _ _ _ client q (Reach-Balanced c r)
Reach-Balanced c (confirms {l} {m} {q} ok client streamptr r) =
    commit-Balanced c l m ok _ _ _ _ _ _ _ _ client q (Reach-Balanced c r)
Reach-Balanced c (broadcasts {l} {m} {q} ok server targets name body r) =
    commit_other-Balanced c l m ok _ _ _ _ _ _ _ _ q (Reach-Balanced c r)
Reach-Balanced c (connects {l} {m} {q} ok isolated ip port r) =
    blocking_commit-Balanced c l m ok _ _ _ _ q (Reach-Balanced c r)
Reach-Balanced c (delays {l} {m} {q} ok isolated seconds r) =
    commit-Balanced c l m ok _ _ _ _ _ _ _ _ isolated q (Reach-Balanced c r)
Reach-Balanced c (finishes r) = Reach-Balanced c r
Reach-Balanced c (works {l} {m} {q} world r) =
    next_command-Balanced c l m world q.commands q refl (Reach-Balanced c r)
Reach-Balanced c (accepts {l} {m} {q} ok server streamptr ip r) =
    accept-Balanced c l m ok server streamptr ip q (Reach-Balanced c r)
Reach-Balanced c (disconnects {l} {m} {q} ok server client r) =
    trunk_add-Balanced c l m ok _ client q refl (Reach-Balanced c r)
Reach-Balanced {conn_id} c (receives {l} {m} {q} ok client serial_no name body r) =
    trunk_add-Balanced c l m ok (client_packet_cb client (conn_id client) serial_no name body)
      client q refl (Reach-Balanced c r)
Reach-Balanced {conn_id} c (receives_inner {l} {m} {q} ok client uuid serial_no name body r) =
    trunk_add-Balanced c l m ok
      (client_inner_packet_cb client (conn_id client) uuid serial_no name body) client q refl
      (Reach-Balanced c r)
Reach-Balanced c (isolated_connects {l} {m} {q} ok is_connected isolated r e) =
    elim (if_cases is_connected _ _ e) [
      | inl (_, never) ↦ cc
      | inr (_, added) ↦
          subst (Balanced c l _) (some_eq added)
            (trunk_add-Balanced c l m ok _ isolated q refl (Reach-Balanced c r))
    ]
Reach-Balanced c (isolated_disconnects {l} {m} {q} ok isolated r) =
    trunk_add-Balanced c l m ok _ isolated q refl (Reach-Balanced c r)
Reach-Balanced {conn_id} c (isolated_receives {l} {m} {q} ok isolated serial_no name body r) =
    trunk_add-Balanced c l m ok (isolated_packet_cb isolated (conn_id isolated) serial_no name body)
      isolated q refl (Reach-Balanced c r)
Reach-Balanced {conn_id} c
      (isolated_receives_inner {l} {m} {q} ok isolated uuid serial_no name body r) =
    trunk_add-Balanced c l m ok
      (isolated_inner_packet_cb isolated (conn_id isolated) uuid serial_no name body) isolated q
      refl (Reach-Balanced c r)
Reach-Balanced c (closes_trunk r) = Reach-Balanced c r
Reach-Balanced c (runs {l} {m} {q} front same r e) =
    next_callback-Balanced c l m front q.callbacks q refl (Reach-Balanced c r) e

clean_lem : (p k w x : ℕ) → Even p k w x → w + x < 2 ^ 32 → ((p == k) ≡ true) ↔ (w + x ≡ 0)
clean_lem p k w x (even, fits) small = (λ e. ground arith, λ e. ground arith)

-- However the two threads take turns: a connection says that the front end is clean exactly if no command
-- waits in the work queue that disposes of it, posts a packet to it, confirms it or delays its
-- reconnecting, and none of these was lost by a queue that was closed or full. It says that the back end
-- is clean exactly if no callback about it waits in the trunk queue, and none was lost. That many requests
-- have to be fewer than the counters can tell apart, 2^32. A command that connects it is not counted.
pub Reach-clean :
    {conn_id : ℕ → ℕ} {l m : List ℕ} {q : Queues} (c : ℕ)
    → Reach conn_id l m q
    → waiting_requests c q.commands + count c l < 2 ^ 32
    → waiting_callbacks c q.callbacks + count c m < 2 ^ 32
    → ((is_front_end_clean (q.counts c) ≡ true) ↔ (waiting_requests c q.commands + count c l ≡ 0))
      × ((is_back_end_clean (q.counts c) ≡ true)
          ↔ (waiting_callbacks c q.callbacks + count c m ≡ 0))
unfolding is_front_end_clean is_back_end_clean
Reach-clean {conn_id} {l} {m} {q} c r few few' =
    let (front, back) = Reach-Balanced c r in
    let even =
      subst
        (λ w.
          Even (q.counts c).front_end_produce_num (q.counts c).back_end_consume_num w (count c l))
        (Reach-waiting_requests c r) front in
    (clean_lem _ _ _ _ even few, clean_lem _ _ _ _ back few')

-- When `Recycle` deletes a connection of the recycler, no command that disposes of it, posts a packet to
-- it, confirms it or delays its reconnecting waits in the work queue, and no callback about it in the
-- trunk queue. Its answers have to be those of its counters, it must not have been set aside before, and
-- fewer than 2^32 of its requests may wait or have been lost.
pub recycle-waiting :
    {conn_id : ℕ → ℕ} {l m : List ℕ} {q : Queues} (conn : ℕ → Conn) (manager : Manager) (p : ℕ)
    → 0 < p
    → (conn p).is_front_end_clean ≡ is_front_end_clean (q.counts p)
    → (conn p).is_back_end_clean ≡ is_back_end_clean (q.counts p)
    → count p manager.safe_to_release ≡ 0
    → deletes p manager.calls < deletes p (recycle conn manager).1.calls
    → Reach conn_id l m q
    → waiting_requests p q.commands + count p l < 2 ^ 32
    → waiting_callbacks p q.callbacks + count p m < 2 ^ 32
    → (waiting_requests p q.commands ≡ 0) × (waiting_callbacks p q.callbacks ≡ 0)
recycle-waiting conn manager p pos front back aside gone r few few' =
    let (_, more, _, _) = recycle_lem conn manager p pos in
    let idle : has_work (conn p) ≡ false = ground arith in
    let (no_commands, no_callbacks) = Reach-clean p r few few' in
    let (fc, bc) = idle_lem (conn p) idle in
    (omega (arith, no_commands.0 (sym front ∙ fc)), omega (arith, no_callbacks.0 (sym back ∙ bc)))
  where
    idle_lem :
        (c : Conn)
        → has_work c ≡ false
        → (c.is_front_end_clean ≡ true) × (c.is_back_end_clean ≡ true)
    idle_lem c e =
        five c.is_connected c.is_back_end_clean c.is_front_end_clean c.is_disposed c.is_flushed e
      where
        five :
            (a b f d s : Bool)
            → (a || not b || not f || not d || not s) ≡ false
            → (f ≡ true) × (b ≡ true)
        five a b f d s e = (ground arith, ground arith)
