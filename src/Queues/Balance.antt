-- ===== src/Queues/Balance.antt =====
-- The counters of a connection against its requests that wait in the queues or were lost.
use netsystem.Base.{
  ℕ, ◌+◌, ◌%◌, ◌^◌, ◌<◌, ◌≡◌, refl, sym, subst, Bool, true, false, not, ◌&&◌, List, [], ◌∷◌, ◌++◌,
  ◌==◌, if◌then◌else◌, add_u32, count, count-cons, count-nil, unit, unit_same, unit_other, arith,
  if-both,
}
use netsystem.Queues.{
  Counts, CommandType, ResultCb, ignore, consume, answer, Command, Callback, accept_client_cb,
  client_disconnect_cb, client_packet_cb, client_inner_packet_cb, isolated_connect_cb,
  isolated_disconnect_cb, isolated_packet_cb, isolated_inner_packet_cb, Queues, new_queues,
  new_counts, change, incr_front_end_produce_num, incr_back_end_produce_num,
}
use netsystem.Queues.Work.{add, commit, blocking_commit}
use netsystem.Queues.Trunk.{camel_add, trunk_add}
use netsystem.Queues.System.{lost_by}

-- The connection whose request a command or a callback is.
abbrev pub consumer : ResultCb → List ℕ
consumer ignore = []
consumer (consume conn) = conn ∷ []
consumer (answer sn) = []

abbrev refers : Callback → List ℕ
refers (accept_client_cb _ _ _) = []
refers (client_disconnect_cb _ client) = client ∷ []
refers (client_packet_cb client _ _ _ _) = client ∷ []
refers (client_inner_packet_cb client _ _ _ _ _) = client ∷ []
refers (isolated_connect_cb isolated) = isolated ∷ []
refers (isolated_disconnect_cb isolated) = isolated ∷ []
refers (isolated_packet_cb isolated _ _ _ _) = isolated ∷ []
refers (isolated_inner_packet_cb isolated _ _ _ _ _) = isolated ∷ []

-- How many requests of a connection wait.
unfoldable pub waiting_commands : ℕ → List Command → ℕ
waiting_commands c [] = 0
waiting_commands c (cmd ∷ cmds) = count c (consumer cmd.result_cb) + waiting_commands c cmds

unfoldable pub waiting_callbacks : ℕ → List Callback → ℕ
waiting_callbacks c [] = 0
waiting_callbacks c (cb ∷ cbs) = count c (refers cb) + waiting_callbacks c cbs

waiting_commands-snoc :
    (c : ℕ) (cmds : List Command) (cmd : Command)
    → waiting_commands c (cmds ++ (cmd ∷ []))
      ≡ waiting_commands c cmds + count c (consumer cmd.result_cb)
unfolding waiting_commands
waiting_commands-snoc c [] cmd = omega arith
waiting_commands-snoc c (x ∷ cmds) cmd = omega (arith, waiting_commands-snoc c cmds cmd)

waiting_callbacks-snoc :
    (c : ℕ) (cbs : List Callback) (cb : Callback)
    → waiting_callbacks c (cbs ++ (cb ∷ [])) ≡ waiting_callbacks c cbs + count c (refers cb)
unfolding waiting_callbacks
waiting_callbacks-snoc c [] cb = omega arith
waiting_callbacks-snoc c (x ∷ cbs) cb = omega (arith, waiting_callbacks-snoc c cbs cb)

-- Modulo 2^32 the produced requests are those that are consumed, wait or were lost.
abbrev pub Even : (produced consumed waiting lost : ℕ) → Type 0
Even p k w x = (p ≡ (k + w + x) % 2 ^ 32) × (k < 2 ^ 32)

abbrev pub Balance : (c : ℕ) (l m : List ℕ) → Counts → List Command → List Callback → Type 0
Balance c l m k cmds cbs =
    Even k.front_end_produce_num k.back_end_consume_num (waiting_commands c cmds) (count c l)
    × Even k.back_end_produce_num k.front_end_consume_num (waiting_callbacks c cbs) (count c m)

abbrev pub Balanced : (c : ℕ) (l m : List ℕ) → Queues → Type 0
Balanced c l m q = Balance c l m (q.counts c) q.commands q.callbacks

pub Balanced-new : (c : ℕ) → Balanced c [] [] new_queues
unfolding new_queues new_counts waiting_commands waiting_callbacks
Balanced-new c =
    ((omega (arith, count-nil c), omega arith), (omega (arith, count-nil c), omega arith))

-- What `Add` leaves: the longer queue, or the queues as they were.
taken_or_not {ℓ} :
    {A : Type ℓ} (closed ok : Bool) (longer same : A)
    → (if◌then◌else◌ {A = Bool × A} closed
        (false, same)
        (if ok then (true, longer) else (false, same))).1
      ≡ (if not closed && ok then longer else same)
taken_or_not true ok longer same = refl
taken_or_not false true longer same = refl
taken_or_not false false longer same = refl

module _ (c : ℕ) (l m : List ℕ) where
  taken-command :
      (taken : Bool) (conn : ℕ) (x y : Queues)
      → Balanced c l m x
      → Balanced c (conn ∷ l) m y
      → Balanced c (lost_by taken conn l) m (if taken then x else y)
  taken-command true conn x y bx by = bx
  taken-command false conn x y bx by = by

  taken-callback :
      (taken : Bool) (conn : ℕ) (x y : Queues)
      → Balanced c l m x
      → Balanced c l (conn ∷ m) y
      → Balanced c l (lost_by taken conn m) (if taken then x else y)
  taken-callback true conn x y bx by = bx
  taken-callback false conn x y bx by = by

  module _ (conn : ℕ) (k : Counts) (cmds : List Command) (cbs : List Callback) where
    command-waits :
        (cmd : Command)
        → cmd.result_cb ≡ consume conn
        → Balance c l m k cmds cbs
        → Balance c l m
            (if conn == c
              then record k { front_end_produce_num = add_u32 k.front_end_produce_num 1 }
              else k)
            (cmds ++ (cmd ∷ []))
            cbs
    command-waits cmd e ((front, fits), back) =
        let one : count c (consumer cmd.result_cb) ≡ unit c conn =
          rw e (omega (arith, count-cons c conn [], count-nil c)) in
        let more = waiting_commands-snoc c cmds cmd in
        if-both (λ k'. Balance c l m k' (cmds ++ (cmd ∷ [])) cbs) (conn == c)
          (λ same. ((omega (arith, one, more, front, unit_same c conn (ground arith)), fits), back))
          (λ other.
            ((omega (arith, one, more, front, unit_other c conn (ground arith)), fits), back))

    command-lost :
        Balance c l m k cmds cbs
        → Balance c
            (conn ∷ l)
            m
            (if conn == c
              then record k { front_end_produce_num = add_u32 k.front_end_produce_num 1 }
              else k)
            cmds
            cbs
    command-lost ((front, fits), back) =
        let more = count-cons c conn l in
        if-both (λ k'. Balance c (conn ∷ l) m k' cmds cbs) (conn == c)
          (λ same. ((omega (arith, more, front, unit_same c conn (ground arith)), fits), back))
          (λ other. ((omega (arith, more, front, unit_other c conn (ground arith)), fits), back))

    pub command-consumed :
        (cmd : Command)
        → cmd.result_cb ≡ consume conn
        → Balance c l m k (cmd ∷ cmds) cbs
        → Balance c l m
            (if conn == c
              then record k { back_end_consume_num = add_u32 k.back_end_consume_num 1 }
              else k)
            cmds
            cbs
    unfolding waiting_commands
    command-consumed cmd e ((front, fits), back) =
        let one : count c (consumer cmd.result_cb) ≡ unit c conn =
          rw e (omega (arith, count-cons c conn [], count-nil c)) in
        if-both (λ k'. Balance c l m k' cmds cbs) (conn == c)
          (λ same.
            ((omega (arith, one, front, unit_same c conn (ground arith)), omega arith), back))
          (λ other. ((omega (arith, one, front, unit_other c conn (ground arith)), fits), back))

    callback-waits :
        (cb : Callback)
        → refers cb ≡ conn ∷ []
        → Balance c l m k cmds cbs
        → Balance c l m
            (if conn == c
              then record k { back_end_produce_num = add_u32 k.back_end_produce_num 1 }
              else k)
            cmds
            (cbs ++ (cb ∷ []))
    callback-waits cb e (front, (back, fits)) =
        let one : count c (refers cb) ≡ unit c conn =
          rw e (omega (arith, count-cons c conn [], count-nil c)) in
        let more = waiting_callbacks-snoc c cbs cb in
        if-both (λ k'. Balance c l m k' cmds (cbs ++ (cb ∷ []))) (conn == c)
          (λ same. (front, (omega (arith, one, more, back, unit_same c conn (ground arith)), fits)))
          (λ other.
            (front, (omega (arith, one, more, back, unit_other c conn (ground arith)), fits)))

    callback-lost :
        Balance c l m k cmds cbs
        → Balance c l
            (conn ∷ m)
            (if conn == c
              then record k { back_end_produce_num = add_u32 k.back_end_produce_num 1 }
              else k)
            cmds
            cbs
    callback-lost (front, (back, fits)) =
        let more = count-cons c conn m in
        if-both (λ k'. Balance c l (conn ∷ m) k' cmds cbs) (conn == c)
          (λ same. (front, (omega (arith, more, back, unit_same c conn (ground arith)), fits)))
          (λ other. (front, (omega (arith, more, back, unit_other c conn (ground arith)), fits)))

    pub callback-consumed :
        (cb : Callback)
        → refers cb ≡ conn ∷ []
        → Balance c l m k cmds (cb ∷ cbs)
        → Balance c l m
            (if conn == c
              then record k { front_end_consume_num = add_u32 k.front_end_consume_num 1 }
              else k)
            cmds
            cbs
    unfolding waiting_callbacks
    callback-consumed cb e (front, (back, fits)) =
        let one : count c (refers cb) ≡ unit c conn =
          rw e (omega (arith, count-cons c conn [], count-nil c)) in
        if-both (λ k'. Balance c l m k' cmds cbs) (conn == c)
          (λ same.
            (front, (omega (arith, one, back, unit_same c conn (ground arith)), omega arith)))
          (λ other. (front, (omega (arith, one, back, unit_other c conn (ground arith)), fits)))

  -- A request of `conn` that is counted and then taken or lost.
  pub commit-Balanced :
      (ok : Bool) (t : CommandType) (h : ℕ) (ts : List ℕ) (s u n : ℕ) (name body : List ℕ)
      (conn : ℕ) (q : Queues)
      → Balanced c l m q
      → Balanced c
          (lost_by (not q.done && ok) conn l)
          m
          (commit ok t h ts s u n name body (consume conn) (incr_front_end_produce_num conn q))
  unfolding commit add incr_front_end_produce_num change
  commit-Balanced ok t h ts s u n name body conn q b =
      subst (Balanced c (lost_by (not q.done && ok) conn l) m) (sym (taken_or_not q.done ok _ _)) (
        taken-command (not q.done && ok) conn _ _
          (command-waits conn (q.counts c) q.commands q.callbacks _ refl b)
          (command-lost conn (q.counts c) q.commands q.callbacks b))

  -- A command that no connection counts.
  pub commit_other-Balanced :
      (ok : Bool) (t : CommandType) (h : ℕ) (ts : List ℕ) (s u n : ℕ) (name body : List ℕ)
      (q : Queues)
      → Balanced c l m q
      → Balanced c l m (commit ok t h ts s u n name body ignore q)
  unfolding commit add
  commit_other-Balanced ok t h ts s u n name body q ((front, fits), back) =
      subst (Balanced c l m) (sym (taken_or_not q.done ok _ _)) (
        if-both (Balanced c l m) (not q.done && ok)
          (λ _.
            ((omega (arith, waiting_commands-snoc c q.commands _, front, count-nil c), fits), back))
          (λ _. ((front, fits), back)))

  pub blocking_commit-Balanced :
      (ok : Bool) (t : CommandType) (h : ℕ) (ip : List ℕ) (port : ℕ) (q : Queues)
      → Balanced c l m q
      → Balanced c l m (blocking_commit ok t h ip port q).1
  unfolding blocking_commit add
  blocking_commit-Balanced ok t h ip port q ((front, fits), back) =
      subst (Balanced c l m) (sym (taken_or_not q.done ok _ _)) (
        if-both (Balanced c l m) (not q.done && ok)
          (λ _.
            ((omega (arith, waiting_commands-snoc c q.commands _, front, count-nil c), fits), back))
          (λ _. ((front, fits), back)))

  pub trunk_add-Balanced :
      (ok : Bool) (cb : Callback) (conn : ℕ) (q : Queues)
      → refers cb ≡ conn ∷ []
      → Balanced c l m q
      → Balanced c l
          (lost_by (not q.close && ok) conn m)
          (trunk_add ok cb (incr_back_end_produce_num conn q))
  unfolding trunk_add camel_add incr_back_end_produce_num change
  trunk_add-Balanced ok cb conn q e b =
      subst (Balanced c l (lost_by (not q.close && ok) conn m)) (sym (taken_or_not q.close ok _ _))
        (taken-callback (not q.close && ok) conn _ _
          (callback-waits conn (q.counts c) q.commands q.callbacks cb e b)
          (callback-lost conn (q.counts c) q.commands q.callbacks b))

  pub accept-Balanced :
      (ok : Bool) (server streamptr : ℕ) (ip : List ℕ) (q : Queues)
      → Balanced c l m q
      → Balanced c l m (trunk_add ok (accept_client_cb server streamptr ip) q)
  unfolding trunk_add camel_add
  accept-Balanced ok server streamptr ip q (front, (back, fits)) =
      subst (Balanced c l m) (sym (taken_or_not q.close ok _ _)) (
        if-both (Balanced c l m) (not q.close && ok)
          (λ _. (
            front,
            (omega (arith, waiting_callbacks-snoc c q.callbacks _, back, count-nil c), fits),
          ))
          (λ _. (front, (back, fits))))
