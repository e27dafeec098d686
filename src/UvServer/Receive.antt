-- ===== src/UvServer/Receive.antt =====
-- `on_client_read` of src/tcp/uv/UvServer.cpp with `OnRawData` of src/tcp/uv/UvClientConn.h, when handlers
-- disconnect the client whose data are being decoded.
use netsystem.Base.{ℕ, ◌≡◌, true, false, none, some, List, [], ◌∷◌, ◌++◌, if◌then◌else◌, lookup}
use netsystem.UvServer.{Client, Server, Call, remove_client, event_disconnected}
use netsystem.UvServer.Linked.{Held}

module _ (conn : ℕ) (c : Client) (s : Server) (held : Held s conn c)
    (found : lookup conn s.clients ≡ some c) (packet : c.packet ≡ true) (running : c.running ≡ true)
    (fresh : c.disposed ≡ false) (unflushed : c.flushed ≡ false)
    (mine : lookup held.h.sockimpl s.sockets ≡ some c.clnt)
    (open_yet : lookup held.h.sockimpl s.closing ≡ none) where
  abbrev ended : Client
  ended = record c {
    running = false;
    connected = false;
    disposed = true;
    packet = false;
    flushed = true;
  }

  abbrev told : List Call
  told =
      (if c.connected then s.calls ++ (event_disconnected conn ∷ []) else s.calls)
      ++ (remove_client conn ∷ [])
