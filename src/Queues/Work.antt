-- ===== src/Queues/Work.antt =====
-- src/tcp/kj/KjConnFactoryWorkQueue.cpp: the commands of the front end to the back end.
use netsystem.Base.{ℕ, ◌+◌, ◌%◌, Bool, true, false, List, [], ◌∷◌, ◌++◌, if◌then◌else◌}
use netsystem.Queues.{
  CommandType, cmd_open_tcp_server, cmd_close_tcp_server, cmd_dispose_connection, cmd_post_packet,
  cmd_flush_tcp_server_down_stream, cmd_confirm_client_is_ready, cmd_post_broadcast_packet,
  cmd_isolated_conn_connect, cmd_isolated_delay_reconnect, ResultCb, ignore, consume, answer,
  Command, BackCall, open_server, close_server, dispose_conn, post, flush_down_stream,
  confirm_is_ready, connect, delay_reconnect, Queues, incr_front_end_produce_num,
  incr_back_end_consume_num,
}

-- `Add`. `enqueued` is whether the lock-free queue found room; without it the command is dropped. The
-- opcode is one byte.
unfoldable pub add : (enqueued : Bool) → Command → Queues → Bool × Queues
add enqueued cmd q =
    if q.done
    then (false, q)
    else (if enqueued
        then (
          true,
          record q {
            commands = q.commands ++ (cmd ∷ []);
            op_code_send = (q.op_code_send + 1) % 256;
          },
        )
        else (false, q))

unfoldable pub finish : Queues → Queues
finish q = record q { done = true }

unfoldable pub commit :
    (enqueued : Bool) (type : CommandType) (handle : ℕ) (targets : List ℕ)
    (streamptr uuid serial_no : ℕ) (type_name body : List ℕ) (result_cb : ResultCb)
    → Queues
    → Queues
commit enqueued type handle targets streamptr uuid serial_no type_name body result_cb q =
    let q = record q { next_sn = q.next_sn + 1 } in
    (add enqueued
      (record {
        sn = q.next_sn;
        type = type;
        handle = handle;
        ip_or_hostname = [];
        port = 0;
        target_list = targets;
        streamptr = streamptr;
        inner_uuid = uuid;
        serial_no = serial_no;
        type_name = type_name;
        body = body;
        result_cb = result_cb;
      })
      q).1

-- `BlockingCommit` up to the wait: the number of the command, under which the answer is awaited.
unfoldable pub blocking_commit :
    (enqueued : Bool) (type : CommandType) (handle : ℕ) (ip_or_hostname : List ℕ) (port : ℕ)
    → Queues
    → ℕ × Queues
blocking_commit enqueued type handle ip_or_hostname port q =
    let q = record q { next_sn = q.next_sn + 1 } in
    (
      q.next_sn,
      (add enqueued
          (record {
            sn = q.next_sn;
            type = type;
            handle = handle;
            ip_or_hostname = ip_or_hostname;
            port = port;
            target_list = [];
            streamptr = 0;
            inner_uuid = 0;
            serial_no = 0;
            type_name = [];
            body = [];
            result_cb = answer q.next_sn;
          })
          q).1,
    )

unfoldable pub open_tcp_server : (enqueued : Bool) (server port : ℕ) → Queues → ℕ × Queues
open_tcp_server enqueued server port q =
    blocking_commit enqueued cmd_open_tcp_server server [] port q

unfoldable pub close_tcp_server : (enqueued : Bool) (server : ℕ) → Queues → ℕ × Queues
close_tcp_server enqueued server q = blocking_commit enqueued cmd_close_tcp_server server [] 0 q

unfoldable pub flush_tcp_server_down_stream :
    (enqueued : Bool) (server streamptr : ℕ) → Queues → Queues
flush_tcp_server_down_stream enqueued server streamptr q =
    commit enqueued cmd_flush_tcp_server_down_stream server [] streamptr 0 0 [] [] ignore q

unfoldable pub dispose_connection : (enqueued : Bool) (conn : ℕ) → Queues → Queues
dispose_connection enqueued conn q =
    commit enqueued cmd_dispose_connection conn [] 0 0 0 [] [] (consume conn)
      (incr_front_end_produce_num conn q)

unfoldable pub post_packet :
    (enqueued : Bool) (client uuid serial_no : ℕ) (type_name body : List ℕ) → Queues → Queues
post_packet enqueued client uuid serial_no type_name body q =
    commit enqueued cmd_post_packet client [] 0 uuid serial_no type_name body (consume client)
      (incr_front_end_produce_num client q)

unfoldable pub confirm_client_is_ready : (enqueued : Bool) (client streamptr : ℕ) → Queues → Queues
confirm_client_is_ready enqueued client streamptr q =
    commit enqueued cmd_confirm_client_is_ready client [] streamptr 0 0 [] [] (consume client)
      (incr_front_end_produce_num client q)

unfoldable pub post_broadcast_packet :
    (enqueued : Bool) (server : ℕ) (targets type_name body : List ℕ) → Queues → Queues
post_broadcast_packet enqueued server targets type_name body q =
    commit enqueued cmd_post_broadcast_packet server targets 0 0 0 type_name body ignore q

unfoldable pub isolated_conn_connect :
    (enqueued : Bool) (isolated : ℕ) (ip_or_hostname : List ℕ) (port : ℕ) → Queues → ℕ × Queues
isolated_conn_connect enqueued isolated ip_or_hostname port q =
    blocking_commit enqueued cmd_isolated_conn_connect isolated ip_or_hostname port q

unfoldable pub isolated_conn_delay_reconnect :
    (enqueued : Bool) (isolated seconds : ℕ) → Queues → Queues
isolated_conn_delay_reconnect enqueued isolated seconds q =
    commit enqueued cmd_isolated_delay_reconnect isolated [] seconds 0 0 [] [] (consume isolated)
      (incr_front_end_produce_num isolated q)

-- What a server and a client answer when a command is worked off: the result of `Open`, as its 32 bits,
-- and `IsReady`.
pub record World : Type 0 where
  pub opens : Command → ℕ
  pub is_ready : Command → Bool

-- The `switch` of `read_pipe_loop`, by the type of the command.
unfoldable pub calls_for : World → Command → CommandType → List BackCall
calls_for world cmd cmd_open_tcp_server = open_server cmd.handle cmd.port ∷ []
calls_for world cmd cmd_close_tcp_server = close_server cmd.handle ∷ []
calls_for world cmd cmd_dispose_connection = dispose_conn cmd.handle ∷ []
calls_for world cmd cmd_post_packet =
    post cmd.handle cmd.inner_uuid cmd.serial_no cmd.type_name cmd.body ∷ []
calls_for world cmd cmd_flush_tcp_server_down_stream =
    flush_down_stream cmd.handle cmd.streamptr ∷ []
calls_for world cmd cmd_confirm_client_is_ready =
    if world.is_ready cmd then confirm_is_ready cmd.handle cmd.streamptr ∷ [] else []
calls_for world cmd cmd_post_broadcast_packet = []
calls_for world cmd cmd_isolated_conn_connect = connect cmd.handle cmd.ip_or_hostname cmd.port ∷ []
calls_for world cmd cmd_isolated_delay_reconnect = delay_reconnect cmd.handle cmd.streamptr ∷ []

-- `r` is set by `Open` only.
unfoldable pub result_for : World → Command → CommandType → ℕ
result_for world cmd cmd_open_tcp_server = world.opens cmd
result_for world cmd _ = 0

unfoldable pub run_result_cb : ResultCb → ℕ → Queues → Queues
run_result_cb ignore r q = q
run_result_cb (consume conn) r q = incr_back_end_consume_num conn q
run_result_cb (answer sn) r q = record q { answers = q.answers ++ ((sn, r) ∷ []) }

-- The body of the loop for a command that was taken from the queue.
unfoldable pub work_off : World → Command → Queues → Queues
work_off world cmd q =
    run_result_cb cmd.result_cb (result_for world cmd cmd.type)
      (record q { back_calls = q.back_calls ++ calls_for world cmd cmd.type })

-- One round of the `while` of `read_pipe_loop`, with the entries of the queue.
unfoldable pub next_command : World → List Command → Queues → Queues
next_command world [] q = q
next_command world (cmd ∷ rest) q = work_off world cmd (record q { commands = rest })
