-- ===== src/UvServer/Tests.antt =====
-- Clients of a server without others.
use netsystem.Base.{◌≡◌, refl, true, false, none, some, [], ◌∷◌, ◌++◌, inl, lookup, put, ◌>>=◌}
use netsystem.UvServer.Reached.{Reach, start, accepts}
use netsystem.UvServer.Post.{is_client_ready, post_packet, post_packet_lem}
use netsystem.UvServer.{
  Client, on_stream_close, Server, add_client, remove_client, event_connected, event_disconnected,
  delete_client,
}
use netsystem.UvServer.Accept.{
  is_ready, on_connection, end_or_reset, on_client_read, closed_by_loop, close_streams,
  close_server,
}
use netsystem.UvServer.Lifecycle.{
  all_succeed, AreNew, running_client, opened, on_connection-opened, delete_client-on_connection,
  closed_by_loop-delete_client, on_connection_refused,
}

abbrev empty : Server
empty = record {
  closed = false;
  ready = true;
  srvr_impl = true;
  streams = [];
  handles = [];
  sockets = [];
  closing = [];
  clients = [];
  calls = [];
}

new_objects : AreNew 11 12 13 empty
unfolding lookup
new_objects = record {
  sock_set = refl;
  clnt_set = refl;
  conn_set = refl;
  sock_new = refl;
  sock_open = refl;
  clnt_new = refl;
  stream_new = refl;
  conn_new = refl;
}

ready : is_ready empty ≡ true
unfolding is_ready
ready = refl

delete_client-on_connection_example :
    (on_connection all_succeed 11 12 13 empty
      >>= on_client_read end_or_reset 11
      >>= closed_by_loop 11
      >>= delete_client 13)
    ≡ some (record empty {
      calls =
          []
          ++ (add_client 13 ∷ [])
          ++ (event_connected 13 ∷ [])
          ++ (event_disconnected 13 ∷ [])
          ++ (remove_client 13 ∷ []);
    })
delete_client-on_connection_example = delete_client-on_connection 11 12 13 empty new_objects ready

closed_by_loop-delete_client_example :
    (s' : Server) × (c : Client) × ((on_connection all_succeed 11 12 13 empty
        >>= on_client_read end_or_reset 11)
      ≡ some s')
    × (lookup 13 s'.clients ≡ some c)
    × (c.disposed ≡ true)
    × (c.flushed ≡ true)
    × (lookup 11 s'.closing ≡ some on_stream_close)
    × ((delete_client 13 s' >>= closed_by_loop 11) ≡ none)
closed_by_loop-delete_client_example = closed_by_loop-delete_client 11 12 13 empty new_objects ready

abbrev busy : Server
busy = record empty { ready = false }

not_ready : is_ready busy ≡ false
unfolding is_ready
not_ready = refl

on_connection_refused_example : on_connection all_succeed 11 12 13 busy ≡ none
unfolding lookup
on_connection_refused_example = on_connection_refused 11 12 13 busy refl refl (inl not_ready)

closes : close_server empty ≡ some (record empty { srvr_impl = false; closed = true })
unfolding close_server close_streams
closes = refl

-- One client, right after it was accepted.
abbrev one_client : Server
one_client = opened 11 12 13 empty new_objects

one_client-Reach : Reach one_client
one_client-Reach =
    accepts 11 12 13 (start empty refl refl) new_objects ready
      (on_connection-opened 11 12 13 empty new_objects ready)

client_found : lookup 13 one_client.clients ≡ some (running_client 12)
unfolding lookup put
client_found = refl

client_ready : is_client_ready 1000000001 (running_client 12) ≡ true
unfolding is_client_ready
client_ready = refl

post_packet_lem_example : post_packet 1000000001 (true ∷ false ∷ true ∷ []) 13 one_client ≡ none
post_packet_lem_example =
    post_packet_lem 13 1000000001 (running_client 12) (true ∷ false ∷ true ∷ []) one_client-Reach
      client_found refl client_ready refl
