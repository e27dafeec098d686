-- ===== src/Queues.antt =====
-- src/tcp/kj/KjConnFactoryWorkQueue.cpp and .hpp, src/tcp/kj/ConnFactoryTrunkQueue.cpp and
-- src/base/CamelReaderWriterQueueWL.cpp: the two queues between the thread of the program, the front
-- end, and the thread of the network, the back end, and the counters that each connection keeps of the
-- requests in them. The lock-free queue is a list, the oldest entry first. A closure is a constructor
-- with what it captures. A connection, a client or a server is its address.
pub mod Work
pub mod Trunk
pub mod System
mod Balance
mod Rounds
pub mod Requests
pub mod Clean
pub mod Callbacks
pub mod Bound
mod Tests
use netsystem.Base.{
  ℕ, ◌%◌, ◌^◌, Bool, true, false, List, [], ◌∷◌, ◌++◌, ◌==◌, if◌then◌else◌, add_u32, Option, none,
  some,
}

-- The counters of a connection, `unsigned int` each.
pub record Counts : Type 0 where
  pub front_end_produce_num : ℕ
  pub back_end_consume_num : ℕ
  pub back_end_produce_num : ℕ
  pub front_end_consume_num : ℕ

pub data CommandType : Type 0 where
  cmd_open_tcp_server cmd_close_tcp_server cmd_dispose_connection cmd_post_packet
        cmd_flush_tcp_server_down_stream cmd_confirm_client_is_ready cmd_post_broadcast_packet
        cmd_isolated_conn_connect cmd_isolated_delay_reconnect :
      CommandType

-- The closures that are given a result: one that does nothing, one that counts a request of a
-- connection as done, and one that sets the promise of the caller that waits.
pub data ResultCb : Type 0 where
  ignore : ResultCb
  consume : ℕ → ResultCb
  answer : ℕ → ResultCb

-- `net_cmd_t` without the state, which stays `QUEUEING`
pub record Command : Type 0 where
  pub sn : ℕ
  pub type : CommandType
  pub handle : ℕ
  pub ip_or_hostname : List ℕ
  pub port : ℕ
  pub target_list : List ℕ
  pub streamptr : ℕ
  pub inner_uuid : ℕ
  pub serial_no : ℕ
  pub type_name : List ℕ
  pub body : List ℕ
  pub result_cb : ResultCb

-- The closures of the trunk queue with what is bound to them.
pub data Callback : Type 0 where
  accept_client_cb : (server streamptr : ℕ) (peer_ip : List ℕ) → Callback
  client_disconnect_cb : (server client : ℕ) → Callback
  client_packet_cb : (client conn_id serial_no : ℕ) (type_name body : List ℕ) → Callback
  client_inner_packet_cb : (client conn_id uuid serial_no : ℕ) (type_name body : List ℕ) → Callback
  isolated_connect_cb : (isolated : ℕ) → Callback
  isolated_disconnect_cb : (isolated : ℕ) → Callback
  isolated_packet_cb : (isolated conn_id serial_no : ℕ) (type_name body : List ℕ) → Callback
  isolated_inner_packet_cb :
      (isolated conn_id uuid serial_no : ℕ) (type_name body : List ℕ) → Callback

-- What the back end calls on servers and connections when it works a command off.
pub data BackCall : Type 0 where
  open_server : (server port : ℕ) → BackCall
  close_server : (server : ℕ) → BackCall
  dispose_conn : (conn : ℕ) → BackCall
  post : (conn uuid serial_no : ℕ) (type_name body : List ℕ) → BackCall
  flush_down_stream : (server streamptr : ℕ) → BackCall
  confirm_is_ready : (client streamptr : ℕ) → BackCall
  connect : (isolated : ℕ) (ip_or_hostname : List ℕ) (port : ℕ) → BackCall
  delay_reconnect : (isolated seconds : ℕ) → BackCall

-- What the front end calls when it runs a callback.
pub data FrontCall : Type 0 where
  on_accept_client : (server streamptr : ℕ) (peer_ip : List ℕ) → FrontCall
  on_connect : (conn : ℕ) → FrontCall
  on_disconnect : (conn : ℕ) → FrontCall
  on_remove_client : (server client : ℕ) → FrontCall
  on_packet : (conn serial_no : ℕ) (type_name body : List ℕ) → FrontCall
  on_inner_packet : (conn uuid serial_no : ℕ) (type_name body : List ℕ) → FrontCall

-- Both queues, and the counters of the connections. `answers` holds the promises that are set, with
-- the number of their command, and `back_calls` and `front_calls` what was called, the oldest first.
pub record Queues : Type 0 where
  pub done : Bool
  pub commands : List Command
  pub op_code_send : ℕ
  pub next_sn : ℕ
  pub answers : List (ℕ × ℕ)
  pub back_calls : List BackCall
  pub close : Bool
  pub callbacks : List Callback
  pub trunk_op_code_send : ℕ
  pub front_calls : List FrontCall
  pub counts : ℕ → Counts

unfoldable pub new_counts : Counts
new_counts = record {
  front_end_produce_num = 0;
  back_end_consume_num = 0;
  back_end_produce_num = 0;
  front_end_consume_num = 0;
}

unfoldable pub new_queues : Queues
new_queues = record {
  done = false;
  commands = [];
  op_code_send = 0;
  next_sn = 0;
  answers = [];
  back_calls = [];
  close = false;
  callbacks = [];
  trunk_op_code_send = 0;
  front_calls = [];
  counts = λ _. new_counts;
}

-- The counters after those of one connection were changed.
unfoldable pub change : ℕ → (Counts → Counts) → Queues → Queues
change conn f q = record q { counts = λ c. if conn == c then f (q.counts c) else q.counts c }

unfoldable pub incr_front_end_produce_num : ℕ → Queues → Queues
incr_front_end_produce_num conn q =
    change conn (λ k. record k { front_end_produce_num = add_u32 k.front_end_produce_num 1 }) q

unfoldable pub incr_back_end_consume_num : ℕ → Queues → Queues
incr_back_end_consume_num conn q =
    change conn (λ k. record k { back_end_consume_num = add_u32 k.back_end_consume_num 1 }) q

unfoldable pub incr_back_end_produce_num : ℕ → Queues → Queues
incr_back_end_produce_num conn q =
    change conn (λ k. record k { back_end_produce_num = add_u32 k.back_end_produce_num 1 }) q

unfoldable pub incr_front_end_consume_num : ℕ → Queues → Queues
incr_front_end_consume_num conn q =
    change conn (λ k. record k { front_end_consume_num = add_u32 k.front_end_consume_num 1 }) q

unfoldable pub is_front_end_clean : Counts → Bool
is_front_end_clean k = k.front_end_produce_num == k.back_end_consume_num

unfoldable pub is_back_end_clean : Counts → Bool
is_back_end_clean k = k.back_end_produce_num == k.front_end_consume_num
