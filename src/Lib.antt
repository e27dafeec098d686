-- ===== src/Lib.antt =====
-- netsystem: the buffers, the packet framing and the managers of a TCP library, with proofs.
--
-- netsystem runs TCP clients and servers over kj, libuv or libevent. What a connection reads goes
-- into a `bip_buf_t` (src/base/bip_buf.c), one contiguous region in a block of twice the usable
-- capacity: the read loop reserves space, the stream fills it, the loop commits it and calls the read
-- callback. That calls `DecodeStream` of the packet layer (src/tcp/TcpInnerPacket.cpp between the
-- servers, src/tcp/TcpOuterPacket.cpp towards the clients), which cuts the bytes into pages, puts the
-- pages of a packet together in a receive buffer, hands whole packets to a callback, and releases the
-- bytes from the buffer. `Post` cuts a packet into pages of at most 8192 bytes and sends them.
--
-- The connections of all servers are kept by the connection manager (src/tcp/TcpConnManager.cpp), which
-- gives out their ids and deletes a connection once all threads are done with it. A server that opens a
-- connection by itself has an isolated connection (src/tcp/uv/UvIsolatedConn.cpp), which is opened again
-- after an error. With kj the network has a thread of its own: commands go to it through a work queue and
-- come back as callbacks through a trunk queue (src/tcp/kj, src/base), and each connection counts its
-- requests in them. With libuv a server (src/tcp/uv) runs on the thread of the program. On top of them a lobby (src/lobby) keeps the accounts that are logged in, in an object
-- pool, and the zones (game servers) that have registered with it, with their channels and peers.
--
-- Files
--   Base       names that the others share: Boolean tests, lists over native numbers, slices and
--              overwriting, `size_t` and `uint32_t` arithmetic, bitwise or
--   BipBuf     src/base/bip_buf.c, each function under its name without the prefix `bip_buf_`, and one
--              round of `AsyncReadLoop` of src/tcp/kj/KjTcpConnection.cpp (`receive`). Below it: Inv (the
--              invariant), Place (moving region A), Refine (each operation as one on the committed
--              bytes), Stream (any history of operations), Grow (`bip_buf_force_reserve`), Search
--              (`fast_strstr`, `bip_buf_find_str`)
--   Packet     src/tcp/TcpInnerPacket.cpp and src/tcp/TcpOuterPacket.cpp: Page (src/tcp/tcp_packet_def.h,
--              the leadings as bytes), Buffers (the free lists), Packet itself (`ConsumePacket`,
--              `ConsumeFramePage`, `DecodeStream`), Post (`EncodeStream`, `Post`), Outer (construction, the
--              static functions, the outer class). Proofs: Stream (the loop), Chunks and Feed (bytes that
--              come in pieces), Safety, Decode, RoundTrip
--   TlsAlloc   src/tcp/uv/uv_tls_alloc.c, with the same function names: the free lists that a thread keeps of
--              libuv handles, requests and buffers. Calls has the calls of a thread as a step
--              relation, Owned one list
--   ObjectPool src/base/ObjectPool.hpp, the pool behind the account states of a lobby: a stack of the ids not in
--              use. Partition has the invariant and allocation, Release the release, Init a new pool, Elements
--              the lemmas on the arrays
--   Accounts   src/lobby/AccountStateList.cpp over the object pool, and in Accounts/Manager
--              src/lobby/SimpleAccountManager.cpp. Count has the number of accounts online, Sound the invariant,
--              Slots and Fresh giving accounts back and taking new ones, Walks the lookups and the walks,
--              Logins, Leave and Binds registering and taking out, History any sequence of calls
--   ConnManager src/tcp/TcpConnManager.cpp and its header. Owned, Release and Recycle follow each connection,
--              History has any sequence of calls, Ids the ids, Lookup finding a client by its id
--   ZoneManager src/lobby/SimpleZoneManager.cpp and its header. Address has the white list, `split_ip` of
--              src/base/MyUtil.cpp and `Register`; Inv the invariant, Dirty what registering and taking out
--              leave, History any sequence of calls
--   Isolated   src/tcp/uv/UvIsolatedConn.cpp: Events has the events that the handlers see, Recover the way back
--              after an error
--   Queues     src/tcp/kj/KjConnFactoryWorkQueue.cpp (Work), src/tcp/kj/ConnFactoryTrunkQueue.cpp and
--              src/base/CamelReaderWriterQueueWL.cpp (Trunk), and the counters of a connection. System has the
--              two threads in any order, Balance, Rounds, Requests and Clean the counters,
--              Callbacks and Bound the trunk queue
--   UvServer   src/tcp/uv/uv_server.c, src/tcp/uv/UvServer.cpp and src/tcp/uv/UvClientConn.cpp: the clients of
--              a server (UvServer itself) and the server (Accept), with the memory they use. Lifecycle has a
--              client from its coming to its end, Linked, Disposal, Safety and Reached any sequence of events,
--              Post what a message that is sent in pages does to the packet it is sent by, Receive what
--              handlers of received packets do to it
--   Util       src/base/MyUtil.cpp: Hex, Split, Copy and Formula
--   The modules Tests apply the theorems to concrete buffers, packets, bytes, threads, pools,
--   accounts, connections, zones, queues, servers and texts.
--
-- State and results
--   Pointers into the block of a `bip_buf_t` are indices; an access outside the block, or a `memcpy`
--   between ranges that overlap, is `none`. A `size_t` difference wraps at 2^64. `malloc` is a parameter,
--   and gives a block of the size asked for, of any content. `live` counts the blocks not yet freed.
--   In TlsAlloc an item is its address, and the address that `malloc` would return is an argument.
--   A packet object is `Packet`, with the two static free lists of its class; the packets given to the
--   callback are its list `got`. The two classes are one model over a `Format`. An error -n is `failed n`.
--   The hash maps of the managers are association lists of Base, which fixes an order for the loops over
--   them; no result depends on it but which of two servers with the same connection id is found first.
--   What a manager calls on other objects is a list of calls. What those objects, libuv and the network
--   answer is an argument. A pointer to an account is its index in the pool; an assertion that fails is
--   `none`. A negative `int` is its bit pattern.
--   In Queues an operation of a thread is one step, a closure is a constructor with what it captures, and
--   the lock-free queue is a list that may refuse an entry. In UvServer the memory is a map by address for
--   each kind of object; libuv calls back in any order.
--   The memory that a new object pool finds is a parameter. The waterline of the trunk queue is that of a build
--   without _DEBUG, and the numbers of commands are not bounded by an `int`. A client that is removed is one
--   that the manager holds. The loop of the work queue may end at a command, or go on after `Finish`.
--   The connection under `Post` is the value of `IsReady` and what `SendRaw` answers for a page.
--
-- Fuel
--   The loop of `ConsumeFramePage` runs on 2 * n + 2 rounds for n bytes: a round either ends it, or reads
--   a page leading, or takes at least the two bytes of a page. The loop of `Post` runs on one round for each byte
--   of the body and one more, since each page but the first takes 8190 of them.
--
-- Not modelled
--   The connection classes of kj and libevent and the gate classes, the set-up of lobbies, HTTP and the start-up are calls of kj, libuv,
--   libevent, OpenSSL and libcurl. Sizes that the packet layer narrows to `int` are assumed to fit. Log
--   output, the text of the exception of `DecodeStream`, and the assertion in `EncodeStream` are left out.
--   Of an isolated connection only its state and the calls are modelled, not the bytes, which are the
--   packet layer's. `city_hash64`, `atoi` and the text of a server name are parameters. The C clients
--   and servers of libevent, the start of the threads and the loops, and formatting are not modelled.
pub mod Base
pub mod BipBuf
pub mod Packet
pub mod TlsAlloc
pub mod ObjectPool
pub mod Accounts
pub mod ConnManager
pub mod ZoneManager
pub mod Isolated
pub mod Queues
pub mod UvServer
pub mod Util
