-- ===== src/BipBuf/Stream.antt =====
-- A connection's buffer over any history of reads and of bytes consumed by the packet layer.
use netsystem.Base.{
  ℕ, ◌-◌, ◌<◌, ◌≡◌, refl, ◌∙◌, ap, ap₂, ltb→lt, lt→ltb, Option, some, List, [], ◌∷◌, ◌++◌, length,
  ltb, take, drop, arith, Bool-cases, ◌>>=◌, inl, inr, append-nil, length-take, take_all,
}
use netsystem.BipBuf.{BipBuf, get_reservation_size, reserve, commit, decommit, store, receive}
use netsystem.BipBuf.Inv.{
  IsValid, contents, length-contents, decommit-IsValid, reservation_size_lem,
}
use netsystem.BipBuf.Refine.{Grants, reserve-Grants, commit-store, decommit_lem, reserve_refuses}

pub data Op : Type 0 where
  incoming : List ℕ → Op
  consume : ℕ → Op

pub step : BipBuf → Op → Option BipBuf
step bb (incoming bytes) = receive bb bytes
step bb (consume n) = some (decommit bb n).1

pub run : BipBuf → List Op → Option BipBuf
unfolding step
run bb [] = some bb
run bb (op ∷ ops) = do bb' ← step bb op; run bb' ops

-- The specification: a queue of bytes that holds at most `cap`.
step_queue : ℕ → List ℕ → Op → List ℕ
step_queue cap q (incoming bytes) = q ++ take (cap - length q) bytes
step_queue cap q (consume n) = drop n q

pub run_queue : ℕ → List ℕ → List Op → List ℕ
unfolding step_queue
run_queue cap q [] = q
run_queue cap q (op ∷ ops) = run_queue cap (step_queue cap q op) ops

-- A valid buffer between two calls: nothing is reserved.
pub record IsIdle (cap : ℕ) (bb : BipBuf) : Type 0 where
  pub valid : IsValid bb
  pub idle : get_reservation_size bb ≡ 0
  pub capacity : bb.available_capacity ≡ cap

commit-idle : (n : ℕ) (bb : BipBuf) → get_reservation_size (commit bb n) ≡ 0
unfolding commit get_reservation_size
commit-idle n bb = refl

capacity-commit :
    (bb : BipBuf) (bytes : List ℕ)
    → (commit (store bb bb.r_start bytes) (length bytes)).available_capacity ≡ bb.available_capacity
unfolding commit store
capacity-commit bb bytes = refl

receive_full :
    {bb : BipBuf} (bytes : List ℕ)
    → IsValid bb
    → length (contents bb) ≡ bb.available_capacity
    → receive bb bytes ≡ some bb
unfolding receive
receive_full bytes v full = rw (reserve_refuses v (inr full))

-- What one round of the read loop makes of the committed bytes.
Received : ℕ → BipBuf → List ℕ → Type 0
Received cap bb bytes =
    (bb' : BipBuf) × (receive bb bytes ≡ some bb')
    × IsIdle cap bb'
    × (contents bb' ≡ contents bb ++ take (cap - length (contents bb)) bytes)

receive_room :
    {cap : ℕ} {bb bb' : BipBuf} (bytes : List ℕ) (size : ℕ)
    → IsIdle cap bb
    → size ≡ cap - length (contents bb)
    → 0 < size
    → reserve bb ≡ some (some bb'.r_start, size, bb')
    → Grants bb size bb'
    → bb'.available_capacity ≡ cap
    → Received cap bb bytes
unfolding receive Received
receive_room {cap} {bb} {bb'} bytes size i e pos runs g same =
    let amount = take size bytes in
    let held : get_reservation_size bb' ≡ size =
      omega (arith, reservation_size_lem g.valid, g.extent) in
    let (valid, appended) =
      commit-store amount (length amount) g.valid g.behind (omega arith)
        (omega (arith, length-take size bytes)) (omega arith) in
    (
      commit (store bb' bb'.r_start amount) (length amount),
      rw (runs, lt→ltb 0 size pos),
      record {
        valid = valid;
        idle = commit-idle (length amount) (store bb' bb'.r_start amount);
        capacity = capacity-commit bb' amount ∙ same;
      },
      appended
          ∙ ap₂ ◌++◌ g.same_bytes
              (take_all (length amount) amount (omega arith) ∙ ap (λ k. take k bytes) e),
    )

receive-Received : {cap : ℕ} {bb : BipBuf} (bytes : List ℕ) → IsIdle cap bb → Received cap bb bytes
unfolding Received
receive-Received {cap} {bb} bytes i = elim (Bool-cases (ltb (length (contents bb)) cap)) [
  | inl room ↦
      let (bb', runs, g, same) =
        reserve-Grants i.valid i.idle (omega (arith, ltb→lt (length (contents bb)) cap room)) in
      receive_room bytes (bb.available_capacity - length (contents bb)) i (omega arith)
        (omega (arith, ltb→lt (length (contents bb)) cap room)) runs g (same ∙ i.capacity)
  | inr full ↦
      let all : length (contents bb) ≡ bb.available_capacity =
        ground (arith, length-contents i.valid, i.valid, i.capacity) in
      (
        bb,
        receive_full bytes i.valid all,
        i,
        rw (all, i.capacity)
            (let none_left : cap - cap ≡ 0 = omega arith in rw (none_left, append-nil)),
      )
]

decommit-IsIdle : {cap : ℕ} {bb : BipBuf} (n : ℕ) → IsIdle cap bb → IsIdle cap (decommit bb n).1
unfolding decommit get_reservation_size
decommit-IsIdle n i = record {
  valid = decommit-IsValid n i.valid;
  idle = i.idle;
  capacity = i.capacity;
}

step_refines :
    {cap : ℕ} {bb : BipBuf} (op : Op)
    → IsIdle cap bb
    → (bb' : BipBuf) × (step bb op ≡ some bb')
      × IsIdle cap bb'
      × (contents bb' ≡ step_queue cap (contents bb) op)
unfolding step step_queue Received
step_refines (incoming bytes) i = receive-Received bytes i
step_refines {bb = bb} (consume n) i =
    ((decommit bb n).1, refl, decommit-IsIdle n i, (decommit_lem n i.valid).1)

-- From an idle valid buffer, no history of reads and releases faults, and the committed bytes are
-- at its end those of the bounded queue that took the same history; the buffer is idle and valid
-- again, at the same capacity.
pub run_refines :
    {cap : ℕ} (ops : List Op) {bb : BipBuf}
    → IsIdle cap bb
    → (bb' : BipBuf) × (run bb ops ≡ some bb')
      × IsIdle cap bb'
      × (contents bb' ≡ run_queue cap (contents bb) ops)
unfolding run run_queue
run_refines [] {bb} i = (bb, refl, i, refl)
run_refines {cap} (op ∷ ops) {bb} i =
    let (bb', stepped, i', same) = step_refines op i in
    let (bb'', ran, i'', same') = run_refines ops i' in
    (bb'', rw stepped ran, i'', same' ∙ ap (λ q. run_queue cap q ops) same)
