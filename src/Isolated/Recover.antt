-- ===== src/Isolated/Recover.antt =====
-- A connection that comes back after an error.
use netsystem.Base.{◌≡◌, refl, true, false, some, ◌∷◌}
use netsystem.Isolated.{
  connection_connected, connection_disconnected, close_socket, start_timer, real_connect, Isolated,
  on_connect, on_disconnect, flush_stream, delay_reconnect, on_isolated_error, reconnect, on_error,
  on_connected, client_reconnect_timer_cb,
}

-- A connection that is connected, is to go on running, has its timer, and does not wait to be opened
-- again.
pub record IsUp (s : Isolated) : Type 0 where
  pub running : s.running ≡ true
  pub connected : s.connected ≡ true
  pub disposed : s.disposed ≡ false
  pub flushed : s.flushed ≡ false
  pub delay_reconnecting : s.delay_reconnecting ≡ false
  pub packet : s.packet ≡ true
  pub clnt : s.clnt ≡ true
  pub sockimpl : s.sockimpl ≡ true
  pub reconnect_timer : s.reconnect_timer ≡ true

-- An error of a connection that is up, and has its timer, closes its socket, tells the handlers and starts the timer; when
-- the timer fires, if a new socket can be made and connects, the connection is up again, after one
-- disconnected and one connected event. No step fails.
pub on_error_recovers :
    (s : Isolated)
    → IsUp s
    → (s1 : Isolated) × (s2 : Isolated) × (s3 : Isolated) × (on_error s ≡ some s1)
      × (s1.calls ≡ start_timer ∷ close_socket ∷ s.calls)
      × (client_reconnect_timer_cb true s1 ≡ some s2)
      × (s2.calls ≡ real_connect ∷ s1.calls)
      × (on_connected true s2 ≡ some s3)
      × (s3.events ≡ connection_connected ∷ connection_disconnected ∷ s.events)
      × IsUp s3
unfolding on_error on_isolated_error flush_stream on_disconnect delay_reconnect
    client_reconnect_timer_cb reconnect on_connected on_connect
on_error_recovers s u =
    rw
      (
        u.running, u.connected, u.disposed, u.flushed, u.delay_reconnecting, u.packet, u.clnt,
        u.sockimpl, u.reconnect_timer,
      )
      (
        _,
        _,
        _,
        refl,
        refl,
        refl,
        refl,
        refl,
        refl,
        record {
          running = refl;
          connected = refl;
          disposed = refl;
          flushed = refl;
          delay_reconnecting = refl;
          packet = refl;
          clnt = refl;
          sockimpl = refl;
          reconnect_timer = refl;
        },
      )
