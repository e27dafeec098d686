-- ===== src/UvServer/Accept.antt =====
-- src/tcp/uv/uv_server.c and src/tcp/uv/UvServer.cpp: accepting clients, reading from them, and closing.
use netsystem.Base.{
  ℕ, Bool, true, false, not, ◌&&◌, Option, none, some, List, [], ◌∷◌, ◌==◌, if◌then◌else◌, lookup,
  put, erase, ◌>>=◌,
}
use netsystem.UvServer.{
  Handle, CloseCb, Server, new_client, call, set_client, set_handle, uv_close_, free_client_handle,
  add_stream, remove_stream, on_connect, on_disconnect, dispose_connection, on_remove_client,
  disconnect, confirm_client_is_ready, on_sock_close, on_stream_close, add_client,
}

-- `conn` is the client that `CreateTcpClientOnServer` made, or null.
unfoldable pub on_accept_client : ℕ → ℕ → Server → Option Server
on_accept_client conn streamptr s =
    if conn == 0
    then some s
    else confirm_client_is_ready conn streamptr
        (call (add_client conn) (set_client conn new_client s))
      >>= on_connect conn

unfoldable on_dispose_client : ℕ → Server → Option Server
on_dispose_client conn s =
    if conn == 0
    then some s
    else dispose_connection conn s >>= on_disconnect conn >>= on_remove_client conn

unfoldable pub is_ready : Server → Bool
is_ready s = not s.closed && s.ready

-- Whether the client was accepted.
unfoldable pub on_server_accept_client : (clnt conn : ℕ) → Server → Option (Bool × Server)
on_server_accept_client clnt conn s =
    if is_ready s
    then on_accept_client conn clnt (add_stream clnt s) >>= (λ s'.
      lookup clnt s'.handles
      >>= (λ h. some (not (conn == 0), set_handle clnt (record h { connimpl = conn }) s')))
    else lookup clnt s.handles >>= (λ h.
      uv_close_ h.sockimpl on_stream_close s
      >>= (λ s'. some (false, set_handle clnt (record h { sockimpl = 0 }) s')))

-- What the calls of libuv answer.
pub record Accepting : Type 0 where
  pub status : Bool
  pub tcp_init : Bool
  pub accept : Bool
  pub read_start : Bool

-- The end of `on_connection`.
unfoldable pub finish_connection : ℕ → Bool × Server → Option Server
finish_connection clnt (accepted, s) =
    (if accepted
      then some s
      else lookup clnt s.handles
        >>= (λ h. uv_close_ h.sockimpl on_sock_close s >>= free_client_handle clnt))
    >>= (λ s'. lookup clnt s'.handles >>= (λ h. some (set_handle clnt (record h { bb = true }) s')))

-- `sock` and `clnt` are what `malloc` gives.
unfoldable pub on_connection : Accepting → (sock clnt conn : ℕ) → Server → Option Server
on_connection r sock clnt conn s =
    if r.status
    then (if r.tcp_init
        then (if r.accept && r.read_start
            then on_server_accept_client clnt conn (
                set_handle clnt (record { sockimpl = sock; connimpl = 0; bb = false })
                  (record s { sockets = put sock clnt s.sockets }))
              >>= finish_connection clnt
            else none)
        else some s)
    else some s

-- The ways a read ends: with the end of the stream or a reset, with another error, with nothing read, or
-- with data, which holds a packet for each entry, whose handler disconnects the client or does not.
pub data ReadResult : Type 0 where
  end_or_reset other_error nothing_read : ReadResult
  data_read : (disconnects : List Bool) → ReadResult

-- `DecodeStream`, for each packet it hands over. It goes on with the packet object after the handler, so
-- one that was deleted meanwhile is `none`.
unfoldable pub hand_over : List Bool → (conn : ℕ) → Server → Option Server
hand_over [] conn s = some s
hand_over (d ∷ disconnects) conn s = (if d then disconnect conn s else some s) >>= (λ s'.
    lookup conn s'.clients >>= (λ c. if c.packet then hand_over disconnects conn s' else none))

unfoldable pub on_raw_data : List Bool → (conn : ℕ) → Server → Option Server
on_raw_data disconnects conn s =
    lookup conn s.clients >>= (λ c. if c.packet then hand_over disconnects conn s else none)

unfoldable pub read_of : ReadResult → (clnt : ℕ) → Handle → Server → Option Server
read_of end_or_reset clnt h s =
    if h.bb
    then (if h.connimpl == 0
        then uv_close_ h.sockimpl on_sock_close s >>= free_client_handle clnt
        else disconnect h.connimpl s)
    else none
read_of other_error clnt h s = some s
read_of nothing_read clnt h s = if h.bb then some s else none
read_of (data_read disconnects) clnt h s =
    if h.bb
    then (if h.connimpl == 0 then some s else on_raw_data disconnects h.connimpl s)
    else none

unfoldable pub on_client_read : ReadResult → (sock : ℕ) → Server → Option Server
on_client_read r sock s =
    lookup sock s.sockets >>= (λ clnt. lookup clnt s.handles >>= (λ h. read_of r clnt h s))

-- `on_client_write` with a status that is an error, and the write not under way.
unfoldable pub on_client_write_error : (sock : ℕ) → Server → Option Server
on_client_write_error sock s = lookup sock s.sockets >>= (λ clnt. lookup clnt s.handles >>= (λ h.
    if h.connimpl == 0
    then uv_close_ h.sockimpl on_sock_close s >>= free_client_handle clnt
    else disconnect h.connimpl s))

-- The callback `on_stream_close`, before it frees the socket.
unfoldable pub stream_closed : ℕ → Server → Option Server
stream_closed sock s = lookup sock s.sockets >>= (λ clnt. lookup clnt s.handles >>= (λ h.
    if h.connimpl == 0
    then some s
    else lookup h.connimpl s.clients
      >>= (λ c. some (set_client h.connimpl (record c { flushed = true }) s))))

unfoldable pub run_close_cb : CloseCb → ℕ → Server → Option Server
run_close_cb on_sock_close sock s = some s
run_close_cb on_stream_close sock s = stream_closed sock s

-- libuv has closed a socket and runs its callback.
unfoldable pub closed_by_loop : (sock : ℕ) → Server → Option Server
closed_by_loop sock s = lookup sock s.closing >>= (λ cb.
    run_close_cb cb sock (record s { closing = erase sock s.closing })
    >>= (λ s'. some (record s' { sockets = erase sock s'.sockets })))

unfoldable pub flush_down_stream : ℕ → Server → Option Server
flush_down_stream streamptr s =
    let removed = remove_stream streamptr s in
    lookup removed.0 removed.1.handles
    >>= (λ h. uv_close_ h.sockimpl on_sock_close removed.1 >>= free_client_handle removed.0)

-- The loop of `Close` over the streams.
unfoldable pub close_streams : List (ℕ × ℕ) → Server → Option Server
close_streams [] s = some s
close_streams ((_, clnt) ∷ streams) s =
    lookup clnt s.handles
    >>= (λ h.
        uv_close_ h.sockimpl on_stream_close s
        >>= (λ s'. free_client_handle clnt (set_handle clnt (record h { sockimpl = 0 }) s')))
    >>= close_streams streams

-- `Close` but for `DisposeDownStreams` of the manager. `_server_closed` is set before `uv_server_dispose_`,
-- which then does not wait for `on_server_close`.
unfoldable pub close_server : Server → Option Server
close_server s =
    if s.closed
    then some s
    else close_streams s.streams s >>= (λ s'.
      if s'.srvr_impl
      then some (record s' { streams = []; srvr_impl = false; closed = true })
      else none)

-- The callback of libuv for the listening socket.
unfoldable pub on_server_close : Server → Option Server
on_server_close s = if s.srvr_impl then some s else none
