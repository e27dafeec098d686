-- ===== src/Queues/System.antt =====
-- The two threads over both queues. Each operation of a thread is a step, so every interleaving of them
-- is a run. A request is lost if its queue is closed or has no room.
use netsystem.Base.{ℕ, ◌≡◌, Bool, not, ◌&&◌, List, [], ◌∷◌, if◌then◌else◌, some}
use netsystem.Queues.{Queues, new_queues}
use netsystem.Queues.Work.{
  World, finish, open_tcp_server, close_tcp_server, flush_tcp_server_down_stream,
  dispose_connection, post_packet, confirm_client_is_ready, post_broadcast_packet,
  isolated_conn_connect, isolated_conn_delay_reconnect, next_command,
}
use netsystem.Queues.Trunk.{
  Front, close, add_accept_client_cb, add_client_disconnect_cb, add_client_packet_cb,
  add_client_inner_packet_cb, add_isolated_connect_cb, add_isolated_disconnect_cb,
  add_isolated_packet_cb, add_isolated_inner_packet_cb, next_callback,
}

-- The connections whose requests were lost, after one more request.
abbrev pub lost_by : (taken : Bool) → ℕ → List ℕ → List ℕ
lost_by taken conn lost = if taken then lost else conn ∷ lost

-- `l` and `m` are the connections of the commands and of the callbacks that were lost. The ids of the
-- connections do not change, and a callback is added with the id of its connection.
pub data Reach (conn_id : ℕ → ℕ) : (l m : List ℕ) → Queues → Type 0 where
  start : Reach conn_id [] [] new_queues
  opens :
      {l m : List ℕ} {q : Queues} (ok : Bool) (server port : ℕ)
      → Reach conn_id l m q
      → Reach conn_id l m (open_tcp_server ok server port q).1
  closes :
      {l m : List ℕ} {q : Queues} (ok : Bool) (server : ℕ)
      → Reach conn_id l m q
      → Reach conn_id l m (close_tcp_server ok server q).1
  flushes :
      {l m : List ℕ} {q : Queues} (ok : Bool) (server streamptr : ℕ)
      → Reach conn_id l m q
      → Reach conn_id l m (flush_tcp_server_down_stream ok server streamptr q)
  disposes :
      {l m : List ℕ} {q : Queues} (ok : Bool) (conn : ℕ)
      → Reach conn_id l m q
      → Reach conn_id (lost_by (not q.done && ok) conn l) m (dispose_connection ok conn q)
  posts :
      {l m : List ℕ} {q : Queues} (ok : Bool) (client uuid serial_no : ℕ) (name body : List ℕ)
      → Reach conn_id l m q
      → Reach conn_id
          (lost_by (not q.done && ok) client l)
          m
          (post_packet ok client uuid serial_no name body q)
  confirms :
      {l m : List ℕ} {q : Queues} (ok : Bool) (client streamptr : ℕ)
      → Reach conn_id l m q
      → Reach conn_id
          (lost_by (not q.done && ok) client l)
          m
          (confirm_client_is_ready ok client streamptr q)
  broadcasts :
      {l m : List ℕ} {q : Queues} (ok : Bool) (server : ℕ) (targets name body : List ℕ)
      → Reach conn_id l m q
      → Reach conn_id l m (post_broadcast_packet ok server targets name body q)
  connects :
      {l m : List ℕ} {q : Queues} (ok : Bool) (isolated : ℕ) (ip : List ℕ) (port : ℕ)
      → Reach conn_id l m q
      → Reach conn_id l m (isolated_conn_connect ok isolated ip port q).1
  delays :
      {l m : List ℕ} {q : Queues} (ok : Bool) (isolated seconds : ℕ)
      → Reach conn_id l m q
      → Reach conn_id
          (lost_by (not q.done && ok) isolated l)
          m
          (isolated_conn_delay_reconnect ok isolated seconds q)
  finishes : {l m : List ℕ} {q : Queues} → Reach conn_id l m q → Reach conn_id l m (finish q)
  works :
      {l m : List ℕ} {q : Queues} (world : World)
      → Reach conn_id l m q
      → Reach conn_id l m (next_command world q.commands q)
  accepts :
      {l m : List ℕ} {q : Queues} (ok : Bool) (server streamptr : ℕ) (ip : List ℕ)
      → Reach conn_id l m q
      → Reach conn_id l m (add_accept_client_cb ok server streamptr ip q)
  disconnects :
      {l m : List ℕ} {q : Queues} (ok : Bool) (server client : ℕ)
      → Reach conn_id l m q
      → Reach conn_id l
          (lost_by (not q.close && ok) client m)
          (add_client_disconnect_cb ok server client q)
  receives :
      {l m : List ℕ} {q : Queues} (ok : Bool) (client serial_no : ℕ) (name body : List ℕ)
      → Reach conn_id l m q
      → Reach conn_id l
          (lost_by (not q.close && ok) client m)
          (add_client_packet_cb ok client (conn_id client) serial_no name body q)
  receives_inner :
      {l m : List ℕ} {q : Queues} (ok : Bool) (client uuid serial_no : ℕ) (name body : List ℕ)
      → Reach conn_id l m q
      → Reach conn_id l
          (lost_by (not q.close && ok) client m)
          (add_client_inner_packet_cb ok client (conn_id client) uuid serial_no name body q)
  isolated_connects :
      {l m : List ℕ} {q q' : Queues} (ok is_connected : Bool) (isolated : ℕ)
      → Reach conn_id l m q
      → add_isolated_connect_cb ok is_connected isolated q ≡ some q'
      → Reach conn_id l (lost_by (not q.close && ok) isolated m) q'
  isolated_disconnects :
      {l m : List ℕ} {q : Queues} (ok : Bool) (isolated : ℕ)
      → Reach conn_id l m q
      → Reach conn_id l
          (lost_by (not q.close && ok) isolated m)
          (add_isolated_disconnect_cb ok isolated q)
  isolated_receives :
      {l m : List ℕ} {q : Queues} (ok : Bool) (isolated serial_no : ℕ) (name body : List ℕ)
      → Reach conn_id l m q
      → Reach conn_id l
          (lost_by (not q.close && ok) isolated m)
          (add_isolated_packet_cb ok isolated (conn_id isolated) serial_no name body q)
  isolated_receives_inner :
      {l m : List ℕ} {q : Queues} (ok : Bool) (isolated uuid serial_no : ℕ) (name body : List ℕ)
      → Reach conn_id l m q
      → Reach conn_id l
          (lost_by (not q.close && ok) isolated m)
          (add_isolated_inner_packet_cb ok isolated (conn_id isolated) uuid serial_no name body q)
  closes_trunk : {l m : List ℕ} {q : Queues} → Reach conn_id l m q → Reach conn_id l m (close q)
  runs :
      {l m : List ℕ} {q q' : Queues} (front : Front)
      → front.conn_id ≡ conn_id
      → Reach conn_id l m q
      → next_callback front q.callbacks q ≡ some q'
      → Reach conn_id l m q'
