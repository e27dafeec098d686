-- ===== src/Isolated/Tests.antt =====
-- The theorems about an isolated connection at one that is up.
use netsystem.Base.{◌≡◌, refl, true, false, some, [], ◌∷◌}
use netsystem.Isolated.{
  connection_connected, connection_disconnected, close_socket, start_timer, real_connect, Isolated,
  new_isolated, on_connect, connect, connecting, on_error, on_connected, client_reconnect_timer_cb,
}
use netsystem.Isolated.Events.{start, connects, connected, Alternates, Reach-Alternates}
use netsystem.Isolated.Recover.{IsUp, on_error_recovers}

abbrev opening : Isolated
opening = record new_isolated {
  packet = true;
  reconnect_timer = true;
  clnt = true;
  sockimpl = true;
  running = true;
  flushed = false;
}

abbrev up_again : Isolated
up_again = record opening { connected = true; events = connection_connected ∷ [] }

opened : connect true true true new_isolated ≡ some (connecting, opening)
unfolding connect new_isolated
opened = refl

came_up : on_connected true opening ≡ some up_again
unfolding on_connected on_connect new_isolated
came_up = refl

Reach-Alternates_example : Alternates up_again
Reach-Alternates_example =
    Reach-Alternates (connected true (connects true true true start opened) came_up)

up_again-IsUp : IsUp up_again
unfolding new_isolated
up_again-IsUp = record {
  running = refl;
  connected = refl;
  disposed = refl;
  flushed = refl;
  delay_reconnecting = refl;
  packet = refl;
  clnt = refl;
  sockimpl = refl;
  reconnect_timer = refl;
}

on_error_recovers_example :
    (s1 : Isolated) × (s2 : Isolated) × (s3 : Isolated) × (on_error up_again ≡ some s1)
    × (s1.calls ≡ start_timer ∷ close_socket ∷ up_again.calls)
    × (client_reconnect_timer_cb true s1 ≡ some s2)
    × (s2.calls ≡ real_connect ∷ s1.calls)
    × (on_connected true s2 ≡ some s3)
    × (s3.events ≡ connection_connected ∷ connection_disconnected ∷ up_again.events)
    × IsUp s3
on_error_recovers_example = on_error_recovers up_again up_again-IsUp
