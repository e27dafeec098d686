-- ===== src/Isolated.antt =====
-- src/tcp/uv/UvIsolatedConn.cpp and src/tcp/uv/UvIsolatedConn.h: a connection that a server opens by
-- itself and opens again after an error. A pointer is whether it is set, what libuv and the event
-- manager are asked is listed, the newest first. A failed assertion, and a pointer that is used though
-- it is null or freed, is `none`.
pub mod Events
pub mod Recover
mod Tests
use netsystem.Base.{
  ℕ, ltb, Bool, true, false, not, ◌&&◌, ◌||◌, Option, none, some, List, [], ◌∷◌, if◌then◌else◌,
  ◌>>=◌,
}

pub data Event : Type 0 where
  connection_connected connection_disconnected : Event

-- The calls of libuv and of the connection factory.
pub data Call : Type 0 where
  close_socket stop_timer start_timer real_connect release_connection delay_reconnect_cb : Call

pub record Isolated : Type 0 where
  pub running : Bool
  pub connected : Bool
  pub disposed : Bool
  pub flushed : Bool
  pub delay_reconnecting : Bool
  pub packet : Bool
  pub clnt : Bool
  pub sockimpl : Bool
  pub reconnect_timer : Bool
  pub events : List Event
  pub calls : List Call

unfoldable pub new_isolated : Isolated
new_isolated = record {
  running = false;
  connected = false;
  disposed = false;
  flushed = true;
  delay_reconnecting = false;
  packet = false;
  clnt = false;
  sockimpl = false;
  reconnect_timer = false;
  events = [];
  calls = [];
}

abbrev pub call : Call → Isolated → Isolated
call c s = record s { calls = c ∷ s.calls }

unfoldable pub on_connect : Isolated → Isolated
on_connect s =
    if s.running && not s.connected
    then record s { connected = true; events = connection_connected ∷ s.events }
    else s

unfoldable pub on_disconnect : Isolated → Isolated
on_disconnect s =
    if s.connected
    then record s { connected = false; events = connection_disconnected ∷ s.events }
    else s

unfoldable pub flush_stream : Isolated → Isolated
flush_stream s =
    if s.clnt && s.sockimpl && not s.flushed
    then record (call close_socket s) { sockimpl = false; flushed = true }
    else s

unfoldable pub dispose_connection : Isolated → Isolated
dispose_connection s =
    if not s.disposed
    then (let s = flush_stream (record s { disposed = true; packet = false }) in
        if s.reconnect_timer then record (call stop_timer s) { reconnect_timer = false } else s)
    else s

unfoldable pub disconnect : Isolated → Isolated
disconnect s =
    if not s.disposed && s.running
    then call release_connection (on_disconnect (record s { running = false }))
    else s

-- Starting a timer reads it, so null is `none`.
unfoldable pub delay_reconnect : Isolated → Option Isolated
delay_reconnect s =
    if not s.delay_reconnecting && not s.disposed
    then (if s.reconnect_timer
        then some (call start_timer (record s { delay_reconnecting = true }))
        else none)
    else some s

unfoldable pub on_isolated_error : Isolated → Option Isolated
on_isolated_error s =
    if s.packet
    then (let s = on_disconnect s in if s.running then delay_reconnect s else some s)
    else none

-- 0, -1 and -2
pub data ConnectResult : Type 0 where
  connecting not_an_ip no_handle : ConnectResult

-- `is_ip` is the test of the address, `timer` whether `uv_create_timer_` gives a timer and `opens` whether
-- `uv_connect_` gives a handle.
unfoldable pub connect : (is_ip timer opens : Bool) → Isolated → Option (ConnectResult × Isolated)
connect is_ip timer opens s =
    if not s.connected && not s.disposed && s.flushed && not s.running
    then some (
        if is_ip
        then (let s = record s {
          packet = true;
          reconnect_timer = timer;
          clnt = opens;
          sockimpl = opens;
        } in
            if opens
            then (connecting, record s { running = true; flushed = false })
            else (no_handle, s))
        else (not_an_ip, s))
    else none

-- `opens` is whether `uv_real_connect_` makes a new socket, and its result is not read.
unfoldable pub reconnect : Bool → Isolated → Option Isolated
reconnect opens s =
    if not s.disposed
    then (let s = record s { delay_reconnecting = false; running = true } in
        if s.flushed
        then (if s.clnt
            then some
                (record (call real_connect s) { flushed = false; sockimpl = opens || s.sockimpl })
            else none)
        else some s)
    else none

unfoldable pub reopen : Isolated → Isolated
reopen s =
    if not s.disposed then call delay_reconnect_cb (if s.connected then disconnect s else s) else s

-- An error of a read or a write, or of the connecting, as the callbacks treat it.
unfoldable pub on_error : Isolated → Option Isolated
on_error s = on_isolated_error (flush_stream s)

-- `on_isolated_connect_error` with status 0; `starts` is whether libuv sets the socket up. Otherwise the
-- client handle is freed while the connection still holds it.
unfoldable pub on_connected : Bool → Isolated → Option Isolated
on_connected starts s = if starts then some (on_connect s) else none

-- `uv_write` answers whether it took the data. It reads the handle it is given, so null is `none`.
unfoldable pub send_raw : Bool → Isolated → Option Isolated
send_raw written s =
    if s.clnt && s.sockimpl then some (if written then s else dispose_connection s) else none

unfoldable pub client_reconnect_timer_cb : Bool → Isolated → Option Isolated
client_reconnect_timer_cb opens s = reconnect opens s

unfoldable pub is_ready : ℕ → Isolated → Bool
is_ready conn_id s = ltb 0 conn_id && not s.disposed && not s.flushed
