-- ===== src/Queues/Tests.antt =====
-- Runs of the two threads.
use netsystem.Base.{
  ◌^◌, ◌<◌, count-cons, count-nil, unit_self, ℕ, ◌+◌, ◌≡◌, ◌↔◌, refl, true, false, some, [], ◌∷◌,
  ◌++◌, count, take, drop, arith,
}
use netsystem.ConnManager.{
  Conn, Manager, new_manager, recycle, safe_release, sort_out, delete_all, recycler_pop, is_safe,
}
use netsystem.ConnManager.Owned.{deletes}
use netsystem.Queues.{
  on_packet, Queues, new_queues, new_counts, change, incr_front_end_produce_num,
  incr_back_end_consume_num, incr_back_end_produce_num, incr_front_end_consume_num,
  is_front_end_clean, is_back_end_clean,
}
use netsystem.Queues.Work.{
  add, commit, post_packet, World, calls_for, next_command, work_off, run_result_cb,
}
use netsystem.Queues.Trunk.{
  consume_waterline, camel_add, trunk_add, add_client_packet_cb, Front, run_callback, next_callback,
  run_once,
}
use netsystem.Queues.System.{Reach, start, runs, posts, works, receives}
use netsystem.Queues.Balance.{waiting_callbacks}
use netsystem.Queues.Requests.{waiting_requests}
use netsystem.Queues.Clean.{Reach-clean, recycle-waiting}
use netsystem.Queues.Callbacks.{all_handled}
use netsystem.Queues.Bound.{Reach-run_once}

abbrev ids : ℕ → ℕ
ids c = 1000000000 + c

abbrev world : World
world = record { opens = λ _. 7; is_ready = λ _. true }

abbrev front : Front
front = record { conn_id = ids; is_closed = λ _. false; enqueues = λ _. true }

-- A packet for connection 5 waits in the work queue, and one from it in the trunk queue.
abbrev busy : Queues
busy =
    add_client_packet_cb true 5 (ids 5) 2 [] (8 ∷ [])
      (post_packet true 5 0 1 [] (9 ∷ []) new_queues)

busy-Reach : Reach ids [] [] busy
unfolding new_queues post_packet commit add incr_front_end_produce_num change
busy-Reach = receives true 5 2 [] (8 ∷ []) (posts true 5 0 1 [] (9 ∷ []) start)

few :
    (waiting_requests 5 busy.commands + count 5 [] < 2 ^ 32)
    × (waiting_callbacks 5 busy.callbacks + count 5 [] < 2 ^ 32)
unfolding waiting_requests waiting_callbacks add_client_packet_cb post_packet trunk_add camel_add
    commit add incr_front_end_produce_num incr_back_end_produce_num change new_queues new_counts
few = (
  omega (arith, count-cons 5 5 [], count-nil 5, unit_self 5),
  omega (arith, count-cons 5 5 [], count-nil 5, unit_self 5),
)

Reach-clean_example :
    ((is_front_end_clean (busy.counts 5) ≡ true)
      ↔ (waiting_requests 5 busy.commands + count 5 [] ≡ 0))
    × ((is_back_end_clean (busy.counts 5) ≡ true)
        ↔ (waiting_callbacks 5 busy.callbacks + count 5 [] ≡ 0))
Reach-clean_example = Reach-clean 5 busy-Reach few.0 few.1

-- The same after both were served.
abbrev worked : Queues
worked = next_command world busy.commands busy

abbrev served : Queues
served =
    incr_front_end_consume_num 5
      (record worked { callbacks = []; front_calls = on_packet 5 2 [] (8 ∷ []) ∷ [] })

ran_once : next_callback front worked.callbacks worked ≡ some served
unfolding next_callback run_callback next_command work_off run_result_cb add_client_packet_cb
    post_packet trunk_add camel_add commit add incr_front_end_produce_num incr_back_end_produce_num
    incr_back_end_consume_num change new_queues new_counts calls_for incr_front_end_consume_num
ran_once = refl

served-Reach : Reach ids [] [] served
served-Reach = runs front refl (works world busy-Reach) ran_once

-- Connection 5 is closed and waits for its end.
abbrev ends : ℕ → Conn
ends p = record {
  conn_id = ids p;
  is_connected = false;
  is_back_end_clean = is_back_end_clean (served.counts p);
  is_front_end_clean = is_front_end_clean (served.counts p);
  is_disposed = true;
  is_flushed = true;
}

abbrev ending : Manager
ending = record new_manager { recycler = 5 ∷ [] }

few_served :
    (waiting_requests 5 served.commands + count 5 [] < 2 ^ 32)
    × (waiting_callbacks 5 served.callbacks + count 5 [] < 2 ^ 32)
unfolding waiting_requests waiting_callbacks next_command work_off run_result_cb calls_for
    add_client_packet_cb post_packet trunk_add camel_add commit add incr_front_end_produce_num
    incr_back_end_produce_num incr_back_end_consume_num incr_front_end_consume_num change new_queues
    new_counts
few_served = (omega (arith, count-nil 5), omega (arith, count-nil 5))

deleted : deletes 5 ending.calls < deletes 5 (recycle ends ending).1.calls
unfolding deletes recycle safe_release sort_out delete_all recycler_pop is_safe new_manager
    is_front_end_clean is_back_end_clean next_command work_off run_result_cb calls_for
    add_client_packet_cb post_packet trunk_add camel_add commit add incr_front_end_produce_num
    incr_back_end_produce_num incr_back_end_consume_num incr_front_end_consume_num change new_queues
    new_counts
deleted = omega (arith, unit_self 5)

not_aside : count 5 ending.safe_to_release ≡ 0
unfolding new_manager
not_aside = count-nil 5

recycle-waiting_example :
    (waiting_requests 5 served.commands ≡ 0) × (waiting_callbacks 5 served.callbacks ≡ 0)
recycle-waiting_example =
    recycle-waiting ends ending 5 (omega arith) refl refl not_aside deleted served-Reach
      few_served.0 few_served.1

open_yet : busy.close ≡ false
unfolding add_client_packet_cb post_packet trunk_add camel_add commit add incr_front_end_produce_num
    incr_back_end_produce_num change new_queues new_counts
open_yet = refl

Reach-run_once_example :
    (q' : Queues) × (run_once front busy ≡ some q')
    × (q'.callbacks ≡ drop consume_waterline busy.callbacks)
    × (q'.front_calls
        ≡ busy.front_calls ++ all_handled front (take consume_waterline busy.callbacks))
Reach-run_once_example = Reach-run_once front refl busy-Reach open_yet
