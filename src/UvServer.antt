-- ===== src/UvServer.antt =====
-- src/tcp/uv/uv_server.c, src/tcp/uv/UvServer.cpp and .h, src/tcp/uv/UvClientConn.cpp and .h, and
-- `uv_close_` of src/tcp/uv/uv_client.c: the clients that a server accepts, and who frees their memory.
-- An object is its address, 0 is null. What is allocated is in a map by address, so a use of memory that
-- was freed or never set is `none`. So is freeing a socket that the loop of libuv still knows.
pub mod Accept
pub mod Lifecycle
pub mod Linked
pub mod Disposal
pub mod Safety
pub mod Reached
pub mod Post
pub mod Receive
mod Tests
use netsystem.Base.{
  ℕ, Bool, true, false, not, ◌&&◌, ◌||◌, Option, none, some, List, [], ◌∷◌, ◌++◌, ltb, ◌==◌,
  if◌then◌else◌, lookup, put, erase, or_else, ◌>>=◌,
}

-- `client_handle_t`. `bb` is whether the buffer is created.
pub record Handle : Type 0 where
  pub sockimpl : ℕ
  pub connimpl : ℕ
  pub bb : Bool

-- `CUvClientConn`
pub record Client : Type 0 where
  pub running : Bool
  pub connected : Bool
  pub disposed : Bool
  pub flushed : Bool
  pub packet : Bool
  pub clnt : ℕ

pub data CloseCb : Type 0 where
  on_sock_close on_stream_close : CloseCb

-- What the handlers and the connection manager are told.
pub data Call : Type 0 where
  add_client : ℕ → Call
  remove_client : ℕ → Call
  event_connected : ℕ → Call
  event_disconnected : ℕ → Call

-- `streams` is `_tcpStreamDict`, `sockets` holds the `data` of each, `closing` the sockets that libuv
-- was asked to close, `srvr_impl` is whether that pointer is set.
pub record Server : Type 0 where
  pub closed : Bool
  pub ready : Bool
  pub srvr_impl : Bool
  pub streams : List (ℕ × ℕ)
  pub handles : List (ℕ × Handle)
  pub sockets : List (ℕ × ℕ)
  pub closing : List (ℕ × CloseCb)
  pub clients : List (ℕ × Client)
  pub calls : List Call

unfoldable pub new_client : Client
new_client = record {
  running = true;
  connected = false;
  disposed = false;
  flushed = false;
  packet = false;
  clnt = 0;
}

abbrev pub call : Call → Server → Server
call c s = record s { calls = s.calls ++ (c ∷ []) }

abbrev pub set_client : ℕ → Client → Server → Server
set_client conn c s = record s { clients = put conn c s.clients }

abbrev pub set_handle : ℕ → Handle → Server → Server
set_handle clnt h s = record s { handles = put clnt h s.handles }

-- Whether libuv was asked to close the socket.
unfoldable pub is_closing : Option CloseCb → Bool
is_closing none = false
is_closing (some _) = true

unfoldable pub uv_close_ : ℕ → CloseCb → Server → Option Server
uv_close_ sock cb s =
    if sock == 0
    then some s
    else lookup sock s.sockets >>= (λ _. some (
        if is_closing (lookup sock s.closing)
        then s
        else record s { closing = put sock cb s.closing }))

-- `bip_buf_destroy(clnt->_bb); free(clnt);`
unfoldable pub free_client_handle : ℕ → Server → Option Server
free_client_handle clnt s =
    lookup clnt s.handles
    >>= (λ h. if h.bb then some (record s { handles = erase clnt s.handles }) else none)

unfoldable pub add_stream : ℕ → Server → Server
add_stream clnt s = record s { streams = put clnt clnt s.streams }

-- The handle that was found, or null.
unfoldable pub found_stream : Option ℕ → ℕ
found_stream none = 0
found_stream (some clnt) = clnt

unfoldable pub remove_stream : ℕ → Server → ℕ × Server
remove_stream streamptr s =
    (found_stream (lookup streamptr s.streams), record s { streams = erase streamptr s.streams })

unfoldable pub on_connect : ℕ → Server → Option Server
on_connect conn s = lookup conn s.clients >>= (λ c. some (
    if c.running && not c.connected
    then call (event_connected conn) (set_client conn (record c { connected = true }) s)
    else s))

unfoldable pub on_disconnect : ℕ → Server → Option Server
on_disconnect conn s = lookup conn s.clients >>= (λ c. some (
    if c.connected
    then call (event_disconnected conn) (set_client conn (record c { connected = false }) s)
    else s))

-- The branch of `FlushStream` for a handle that is set.
unfoldable pub flush_handle : ℕ → Client → Handle → Server → Option Server
flush_handle conn c h s =
    if not (h.sockimpl == 0) && not c.flushed
    then uv_close_ h.sockimpl on_stream_close s >>= (λ s'. some (
        set_client conn (record c { flushed = true })
          (set_handle c.clnt (record h { sockimpl = 0 }) s')))
    else some s

unfoldable pub flush_stream : ℕ → Server → Option Server
flush_stream conn s = lookup conn s.clients >>= (λ c.
    if c.clnt == 0 then some s else lookup c.clnt s.handles >>= (λ h. flush_handle conn c h s))

unfoldable pub dispose_connection : ℕ → Server → Option Server
dispose_connection conn s = lookup conn s.clients >>= (λ c.
    if not c.disposed
    then flush_stream conn (set_client conn (record c { disposed = true; packet = false }) s)
    else some s)

-- `OnRemoveClient` of a manager that holds the client: it gives it to `ReleaseConnection` of the factory.
unfoldable pub on_remove_client : ℕ → Server → Option Server
on_remove_client conn s = dispose_connection conn (call (remove_client conn) s)

unfoldable pub disconnect : ℕ → Server → Option Server
disconnect conn s = lookup conn s.clients >>= (λ c.
    if not c.disposed && c.running
    then on_disconnect conn (set_client conn (record c { running = false }) s)
      >>= on_remove_client conn
    else some s)

-- `uv_write` answers whether it took the data. It reads the handle it is given, so null is `none`.
unfoldable pub send_raw : (written : Bool) → ℕ → Server → Option Server
send_raw written conn s = lookup conn s.clients >>= (λ c.
    if c.clnt == 0
    then none
    else lookup c.clnt s.handles >>= (λ h.
      if s.srvr_impl && not (h.sockimpl == 0)
      then (if written then some s else dispose_connection conn s)
      else none))

unfoldable pub confirm_client_is_ready : ℕ → ℕ → Server → Option Server
confirm_client_is_ready conn streamptr s =
    let removed = remove_stream streamptr s in
    lookup conn s.clients >>= (λ c. some (
      set_client conn (record c { clnt = removed.0; packet = not (removed.0 == 0) || c.packet })
        removed.1))

-- The destructor, and `delete`.
unfoldable pub delete_client : ℕ → Server → Option Server
delete_client conn s = lookup conn s.clients >>= (λ c.
    let s = record s { clients = erase conn s.clients } in
    if c.clnt == 0 then some s else free_client_handle c.clnt s)
