-- ===== src/Isolated/Events.antt =====
-- The events that the handlers of a connection see.
use netsystem.Base.{
  ◌≡◌, subst, Bool, true, false, not, ◌&&◌, some, List, [], ◌∷◌, if-both, if_some, some_eq, inl,
  inr, if_cases, arith,
}
use netsystem.Isolated.{
  Event, connection_connected, connection_disconnected, Isolated, new_isolated, on_connect,
  on_disconnect, flush_stream, dispose_connection, disconnect, delay_reconnect, on_isolated_error,
  ConnectResult, connect, reconnect, reopen, on_error, on_connected, send_raw,
  client_reconnect_timer_cb,
}

-- Each event is followed by one of the other kind, and the first is that of being connected.
pub data Alternate : List Event → Bool → Type 0 where
  quiet : Alternate [] false
  up :
      {events : List Event}
      → Alternate events false
      → Alternate (connection_connected ∷ events) true
  down :
      {events : List Event}
      → Alternate events true
      → Alternate (connection_disconnected ∷ events) false

abbrev pub Alternates : Isolated → Type 0
Alternates s = Alternate s.events s.connected

on_connect-Alternates : (s : Isolated) → Alternates s → Alternates (on_connect s)
unfolding on_connect
on_connect-Alternates s a =
    if-both Alternates (s.running && not s.connected)
      (λ ready. up (subst (Alternate s.events) (off s.running s.connected ready) a)) (λ _. a)
  where
    off : (r c : Bool) → (r && not c) ≡ true → c ≡ false
    off r c e = ground arith

on_disconnect-Alternates : (s : Isolated) → Alternates s → Alternates (on_disconnect s)
unfolding on_disconnect
on_disconnect-Alternates s a =
    if-both Alternates s.connected (λ on. down (subst (Alternate s.events) on a)) (λ _. a)

flush_stream-Alternates : (s : Isolated) → Alternates s → Alternates (flush_stream s)
unfolding flush_stream
flush_stream-Alternates s a =
    if-both Alternates (s.clnt && s.sockimpl && not s.flushed) (λ _. a) (λ _. a)

dispose_connection-Alternates : (s : Isolated) → Alternates s → Alternates (dispose_connection s)
unfolding dispose_connection
dispose_connection-Alternates s a =
    let closed = record s { disposed = true; packet = false } in
    let flushed = flush_stream-Alternates (record s { disposed = true; packet = false }) a in
    if-both Alternates (not s.disposed)
      (λ _.
        if-both Alternates
          (flush_stream (record s { disposed = true; packet = false })).reconnect_timer
          (λ _. flushed) (λ _. flushed))
      (λ _. a)

disconnect-Alternates : (s : Isolated) → Alternates s → Alternates (disconnect s)
unfolding disconnect
disconnect-Alternates s a =
    if-both Alternates (not s.disposed && s.running)
      (λ _. on_disconnect-Alternates (record s { running = false }) a) (λ _. a)

delay_reconnect-Alternates :
    (s : Isolated) {s' : Isolated} → delay_reconnect s ≡ some s' → Alternates s → Alternates s'
unfolding delay_reconnect
delay_reconnect-Alternates s e a =
    elim (if_cases (not s.delay_reconnecting && not s.disposed) _ (some s) e) [
      | inl (_, starts) ↦ subst Alternates (some_eq (if_some s.reconnect_timer starts).1) a
      | inr (_, same) ↦ subst Alternates (some_eq same) a
    ]

reopen-Alternates : (s : Isolated) → Alternates s → Alternates (reopen s)
unfolding reopen
reopen-Alternates s a =
    if-both Alternates (not s.disposed)
      (λ _. if-both Alternates s.connected (λ _. disconnect-Alternates s a) (λ _. a)) (λ _. a)

on_error-Alternates :
    (s : Isolated) {s' : Isolated} → on_error s ≡ some s' → Alternates s → Alternates s'
unfolding on_error on_isolated_error
on_error-Alternates s e a =
    let s1 = flush_stream s in
    let (_, is) = if_some (flush_stream s).packet e in
    let off = on_disconnect-Alternates (flush_stream s) (flush_stream-Alternates s a) in
    elim (if_cases (on_disconnect (flush_stream s)).running _ (some _) is) [
      | inl (_, waits) ↦ delay_reconnect-Alternates (on_disconnect (flush_stream s)) waits off
      | inr (_, same) ↦ subst Alternates (some_eq same) off
    ]

connect-Alternates :
    (is_ip timer opens : Bool) (s : Isolated) {r : ConnectResult × Isolated}
    → connect is_ip timer opens s ≡ some r
    → Alternates s
    → Alternates r.1
unfolding connect
connect-Alternates is_ip timer opens s e a =
    let (_, is) = if_some (not s.connected && not s.disposed && s.flushed && not s.running) e in
    subst Result (some_eq is)
      (if-both Result is_ip (λ _. if-both Result opens (λ _. a) (λ _. a)) (λ _. a))
  where
    Result : ConnectResult × Isolated → Type 0
    Result r = Alternates r.1

reconnect-Alternates :
    (opens : Bool) (s : Isolated) {s' : Isolated}
    → reconnect opens s ≡ some s'
    → Alternates s
    → Alternates s'
unfolding reconnect
reconnect-Alternates opens s e a =
    let (_, is) = if_some (not s.disposed) e in
    elim (if_cases s.flushed _ (some _) is) [
      | inl (_, opened) ↦ let (_, done) = if_some s.clnt opened in subst Alternates (some_eq done) a
      | inr (_, done) ↦ subst Alternates (some_eq done) a
    ]

on_connected-Alternates :
    (starts : Bool) (s : Isolated) {s' : Isolated}
    → on_connected starts s ≡ some s'
    → Alternates s
    → Alternates s'
unfolding on_connected
on_connected-Alternates starts s e a =
    subst Alternates (some_eq (if_some starts e).1) (on_connect-Alternates s a)

send_raw-Alternates :
    (written : Bool) (s : Isolated) {s' : Isolated}
    → send_raw written s ≡ some s'
    → Alternates s
    → Alternates s'
unfolding send_raw
send_raw-Alternates written s e a =
    subst Alternates (some_eq (if_some (s.clnt && s.sockimpl) e).1)
      (if-both Alternates written (λ _. a) (λ _. dispose_connection-Alternates s a))

timer-Alternates :
    (opens : Bool) (s : Isolated) {s' : Isolated}
    → client_reconnect_timer_cb opens s ≡ some s'
    → Alternates s
    → Alternates s'
unfolding client_reconnect_timer_cb
timer-Alternates opens s e a = reconnect-Alternates opens s e a

-- The calls up to now. libuv and the network decide what each of them answers, and when.
pub data Reach : Isolated → Type 0 where
  start : Reach new_isolated
  connects :
      {s : Isolated} {r : ConnectResult × Isolated} (is_ip timer opens : Bool)
      → Reach s
      → connect is_ip timer opens s ≡ some r
      → Reach r.1
  connected :
      {s s' : Isolated} (starts : Bool) → Reach s → on_connected starts s ≡ some s' → Reach s'
  fails : {s s' : Isolated} → Reach s → on_error s ≡ some s' → Reach s'
  sends : {s s' : Isolated} (written : Bool) → Reach s → send_raw written s ≡ some s' → Reach s'
  fires :
      {s s' : Isolated} (opens : Bool)
      → Reach s
      → client_reconnect_timer_cb opens s ≡ some s'
      → Reach s'
  disposes : {s : Isolated} → Reach s → Reach (dispose_connection s)
  flushes : {s : Isolated} → Reach s → Reach (flush_stream s)
  disconnects : {s : Isolated} → Reach s → Reach (disconnect s)
  reopens : {s : Isolated} → Reach s → Reach (reopen s)
  delays : {s s' : Isolated} → Reach s → delay_reconnect s ≡ some s' → Reach s'

-- Whatever is called and whatever happens to the socket: the handlers of a connection see a connected
-- event first, then a disconnected one, and so on by turns, and the connection says that it is
-- connected exactly while the last event was a connected one.
pub Reach-Alternates : {s : Isolated} → Reach s → Alternates s
Reach-Alternates start = unfold new_isolated in quiet
Reach-Alternates (connects {s} is_ip timer opens r e) =
    connect-Alternates is_ip timer opens s e (Reach-Alternates r)
Reach-Alternates (connected {s} starts r e) =
    on_connected-Alternates starts s e (Reach-Alternates r)
Reach-Alternates (fails {s} r e) = on_error-Alternates s e (Reach-Alternates r)
Reach-Alternates (sends {s} written r e) = send_raw-Alternates written s e (Reach-Alternates r)
Reach-Alternates (fires {s} opens r e) = timer-Alternates opens s e (Reach-Alternates r)
Reach-Alternates (disposes {s} r) = dispose_connection-Alternates s (Reach-Alternates r)
Reach-Alternates (flushes {s} r) = flush_stream-Alternates s (Reach-Alternates r)
Reach-Alternates (disconnects {s} r) = disconnect-Alternates s (Reach-Alternates r)
Reach-Alternates (reopens {s} r) = reopen-Alternates s (Reach-Alternates r)
Reach-Alternates (delays {s} r e) = delay_reconnect-Alternates s e (Reach-Alternates r)
