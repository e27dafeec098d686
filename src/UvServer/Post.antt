-- ===== src/UvServer/Post.antt =====
-- `PostPacket` of src/tcp/uv/UvClientConn.cpp with `Post` of src/tcp/TcpInnerPacket.cpp: what happens to the
-- memory of a client while its packet sends a message page by page.
use netsystem.Base.{
  ℕ, ltb, ◌≡◌, refl, Bool, true, false, not, ◌&&◌, Option, none, some, List, [], ◌∷◌, if◌then◌else◌,
  lookup, put, put-put, ◌>>=◌, arith,
}
use netsystem.UvServer.{
  Client, Server, on_stream_close, set_client, set_handle, is_closing, uv_close_, flush_handle,
  flush_stream, dispose_connection, send_raw,
}
use netsystem.UvServer.Linked.{Held, put_at}
use netsystem.UvServer.Disposal.{open_socket}
use netsystem.UvServer.Reached.{Reach, Reach-IsLinked}

-- The loop of `Post` over the pages. `uv_write` answers for each whether it took it. `Post` goes on with
-- the packet after each page, so a packet that was deleted meanwhile is `none`.
unfoldable pub send_pages : (written : List Bool) → ℕ → Server → Option Server
send_pages [] conn s = some s
send_pages (w ∷ written) conn s = send_raw w conn s >>= (λ s'.
    lookup conn s'.clients >>= (λ c. if c.packet then send_pages written conn s' else none))

unfoldable pub is_client_ready : (conn_id : ℕ) → Client → Bool
is_client_ready conn_id c = ltb 0 conn_id && not c.disposed && not c.flushed

unfoldable pub post_packet : (conn_id : ℕ) (written : List Bool) → ℕ → Server → Option Server
post_packet conn_id written conn s =
    lookup conn s.clients
    >>= (λ c. if c.packet && is_client_ready conn_id c then send_pages written conn s else some s)

-- Whether libuv took every page.
abbrev pub all_taken : List Bool → Bool
all_taken [] = true
all_taken (w ∷ written) = w && all_taken written

module _ (conn : ℕ) (c : Client) (s : Server) (held : Held s conn c)
    (found : lookup conn s.clients ≡ some c) (packet : c.packet ≡ true)
    (impl : s.srvr_impl ≡ true) where
  taken : send_raw true conn s ≡ some s
  unfolding send_raw
  taken = simp (found, held.clnt_set, held.found, impl, held.live packet)

  module _ (fresh : c.disposed ≡ false) (unflushed : c.flushed ≡ false)
      (mine : lookup held.h.sockimpl s.sockets ≡ some c.clnt)
      (open_yet : lookup held.h.sockimpl s.closing ≡ none) where
    refused :
        send_raw false conn s
        ≡ some (
            set_client conn
              (record c { disposed = true; packet = false; flushed = true })
              (set_handle c.clnt
                (record held.h { sockimpl = 0 })
                (record s { closing = put held.h.sockimpl on_stream_close s.closing })))
    unfolding send_raw dispose_connection flush_stream flush_handle uv_close_ is_closing
    refused = simp (
      found,
      held.clnt_set,
      held.found,
      impl,
      held.live packet,
      fresh,
      unflushed,
      mine,
      open_yet,
      put_at,
      put-put,
    )

    send_pages_lem :
        (written : List Bool)
        → send_pages written conn s ≡ (if all_taken written then some s else none)
    unfolding send_pages
    send_pages_lem [] = refl
    send_pages_lem (true ∷ written) = simp (taken, found, packet, send_pages_lem written)
    send_pages_lem (false ∷ written) = simp (refused, put_at)

pub is_client_ready_lem :
    (conn_id : ℕ) (c : Client)
    → is_client_ready conn_id c ≡ true
    → (c.disposed ≡ false) × (c.flushed ≡ false)
unfolding is_client_ready
is_client_ready_lem conn_id c e = passed (ltb 0 conn_id) c.disposed c.flushed e
  where
    passed : (a b d : Bool) → (a && not b && not d) ≡ true → (b ≡ false) × (d ≡ false)
    passed a b d h = (ground arith, ground arith)

-- After whatever has happened to the clients of a server before, as long as none was refused or deleted and
-- only packets sent: `PostPacket` to a client that is ready, on a server with its implementation, leaves
-- the server as it was if libuv takes every page of the message. If it refuses one, `SendRaw` disposes of
-- the client, which deletes the packet, and `Post` goes on with the deleted packet.
pub post_packet_lem :
    {s : Server} (conn conn_id : ℕ) (c : Client) (written : List Bool)
    → Reach s
    → lookup conn s.clients ≡ some c
    → c.packet ≡ true
    → is_client_ready conn_id c ≡ true
    → s.srvr_impl ≡ true
    → post_packet conn_id written conn s ≡ (if all_taken written then some s else none)
unfolding post_packet
post_packet_lem {s} conn conn_id c written reached found packet ready impl =
    let held = (Reach-IsLinked reached).handle_of conn c found in
    let (mine, open_yet) = open_socket conn c held.h s held.found (held.live packet) held in
    let (fresh, unflushed) = is_client_ready_lem conn_id c ready in
    let sends =
      send_pages_lem conn c s held found packet impl fresh unflushed mine open_yet written in
    simp (found, packet, ready, sends)
