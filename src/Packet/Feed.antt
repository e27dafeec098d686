-- ===== src/Packet/Feed.antt =====
-- The decoder behind a connection's read callback: each piece that arrives is put behind the bytes
-- not consumed yet, and `ConsumeFramePage` is called on them.
use netsystem.Base.{
  ℕ, ◌+◌, ◌*◌, ◌≡◌, ◌≢◌, sym, ◌∙◌, ap, ap₂, inl, inr, Option, none, some, List, [], ◌∷◌, ◌++◌,
  length, drop, ◌>>=◌, arith, drop-append_le, drop-drop, append-nil, append_assoc,
}
use native.Mathlib.Nat.{zero-add}
use netsystem.Packet.Page.{skip, Format}
use netsystem.Packet.{
  Packet, loop, Outcome, consumed, failed, consume_frame_page, halt, leading_round, body_round,
}
use netsystem.Packet.Stream.{loop_fuel, loop_halt, round_leading, round_body, State-cases}
use netsystem.Packet.Chunks.{loop-Splits, loop-Runs, consume_frame_page_of_loop}

abbrev pub concat : List (List ℕ) → List ℕ
concat [] = []
concat (c ∷ cs) = c ++ concat cs

-- What comes of the pieces in turn; an error stops it, as the exception does.
pub feed : Format → ℕ → Packet → List ℕ → List (List ℕ) → Option (Packet × List ℕ)
feed fmt capacity p pending [] = some (p, pending)
feed fmt capacity p pending (c ∷ cs) = do
  (outcome, q) ← consume_frame_page fmt p (pending ++ c) capacity
  elim outcome [ consumed k ↦ feed fmt capacity q (drop k (pending ++ c)) cs | failed e ↦ none ]

consumed_eq :
    (k m : ℕ) (p q : Packet)
    → ◌≡◌ {A = Option (Outcome × Packet)} (some (consumed k, p)) (some (consumed m, q))
    → k ≡ m
consumed_eq k m p q e = cc

packet_eq :
    (k m : ℕ) (p q : Packet)
    → ◌≡◌ {A = Option (Outcome × Packet)} (some (consumed k, p)) (some (consumed m, q))
    → p ≡ q
packet_eq k m p q e = cc

-- With no byte to go by, a decoder that skips nothing stops at once.
pub starved :
    (fmt : Format) (capacity : ℕ) (p : Packet) (n : ℕ)
    → p.state ≢ skip
    → loop fmt capacity 1 p [] n ≡ some (consumed (n + 0), p)
unfolding leading_round body_round
starved fmt capacity p n h = elim (State-cases p.state) [
  | inl e ↦ loop_halt fmt capacity p [] (round_leading fmt capacity p [] e) 0 n
  | inr (inl e) ↦
      let hungry : body_round fmt p [] ≡ halt 0 p = ground arith in
      loop_halt fmt capacity p [] (round_body fmt capacity p [] e ∙ hungry) 0 n
  | inr (inr e) ↦ absurd (h e)
]

module _ (fmt : Format) (capacity : ℕ) where
  -- The decoder makes nothing of the bytes that it has left.
  abbrev IsHungry : Packet → List ℕ → Type 0
  IsHungry p ptr = (fuel : ℕ) × (loop fmt capacity fuel p ptr 0 ≡ some (consumed 0, p))

  same_run :
      (f g : ℕ) (p : Packet) (ptr : List ℕ) {r r' : Outcome × Packet}
      → loop fmt capacity f p ptr 0 ≡ some r
      → loop fmt capacity g p ptr 0 ≡ some r'
      → some r ≡ some r'
  same_run f g p ptr e e' =
      sym (loop_fuel fmt capacity f (f + g) p ptr 0 (omega arith) e)
      ∙ loop_fuel fmt capacity g (f + g) p ptr 0 (omega arith) e'

  -- It is hungry where a run has ended.
  loop-IsHungry :
      (fuel : ℕ) (p q : Packet) (ptr : List ℕ) (k : ℕ)
      → p.state ≢ skip
      → q.state ≢ skip
      → loop fmt capacity fuel p ptr 0 ≡ some (consumed (0 + k), q)
      → IsHungry q (drop k ptr)
  loop-IsHungry fuel p q ptr k hp hq e =
      let all : loop fmt capacity fuel p (ptr ++ []) 0 ≡ some (consumed (0 + k), q) =
        rw append-nil e in
      let (k', p', ran, le, still, after) =
        loop-Splits fmt capacity fuel p ptr [] 0 (0 + k) q hp hq all in
      let same = same_run fuel fuel p ptr ran e in
      let (j, sum, runs) =
        loop-Runs fmt capacity fuel p' (drop k' ptr ++ []) (0 + k') (0 + k) q after in
      let here : k' ≡ k = omega (arith, consumed_eq (0 + k') (0 + k) p' q same) in
      let none_more : j ≡ 0 = omega (arith, consumed_eq (0 + k') (0 + k) p' q same) in
      (
        fuel,
        ap (λ i. loop fmt capacity fuel q (drop i ptr) 0) (sym here)
            ∙ ap (λ b. loop fmt capacity fuel q b 0) (sym (append-nil (drop k' ptr)))
            ∙ ap (λ x. loop fmt capacity fuel x (drop k' ptr ++ []) 0)
                (sym (packet_eq (0 + k') (0 + k) p' q same))
            ∙ runs 0
            ∙ ap (λ i. some (consumed i, q)) (omega (arith, none_more)),
      )

  feed_rest :
      (cs : List (List ℕ)) (pending : List ℕ) (p : Packet) (fuel m : ℕ) (q : Packet)
      → p.state ≢ skip
      → q.state ≢ skip
      → IsHungry p pending
      → loop fmt capacity fuel p (pending ++ concat cs) 0 ≡ some (consumed m, q)
      → feed fmt capacity p pending cs ≡ some (q, drop m (pending ++ concat cs))
  unfolding feed
  feed_rest [] pending p fuel m q hp hq (f, hungry) e =
      let same = same_run f fuel p pending hungry (rw append-nil at e) in
      rw (append-nil, ← consumed_eq 0 m p q same, ← packet_eq 0 m p q same)
  feed_rest (c ∷ cs) pending p fuel m q hp hq hungry e =
      let bytes = pending ++ c in
      let e' : loop fmt capacity fuel p (bytes ++ concat cs) 0 ≡ some (consumed m, q) =
        rw append_assoc e in
      let (k, p', ran, le, still, after) =
        loop-Splits fmt capacity fuel p bytes (concat cs) 0 m q hp hq e' in
      let (j, total, runs) =
        loop-Runs fmt capacity fuel p' (drop k bytes ++ concat cs) (0 + k) m q after in
      let here = zero-add k in
      let rest =
        feed_rest cs (drop k bytes) p' fuel j q still hq
          (loop-IsHungry fuel p p' bytes k hp still ran)
          (runs 0 ∙ ap (λ i. some (consumed i, q)) (zero-add j)) in
      rw (consume_frame_page_of_loop fmt capacity fuel p bytes _ ran, here, rest)
        (ap (λ b. some (q, b))
          (ap (drop j) (sym (drop-append_le k bytes (concat cs) le))
            ∙ drop-drop k j (bytes ++ concat cs)
            ∙ ap₂ drop (sym (total ∙ ap (λ i. i + j) here)) (append_assoc pending c (concat cs))))

-- However a stream is cut into pieces, the decoder that gets it piece by piece ends in the state that
-- `ConsumeFramePage` reaches on the whole stream at once, with the same packets handed over and the
-- same bytes left, provided that the latter consumes bytes without an error and neither starts nor
-- ends inside a page that is being skipped.
pub feed-consume_frame_page :
    (fmt : Format) (capacity : ℕ) (chunks : List (List ℕ)) (p : Packet) (m : ℕ) (q : Packet)
    → p.state ≢ skip
    → q.state ≢ skip
    → consume_frame_page fmt p (concat chunks) capacity ≡ some (consumed m, q)
    → feed fmt capacity p [] chunks ≡ some (q, drop m (concat chunks))
feed-consume_frame_page fmt capacity chunks p m q hp hq e =
    feed_rest fmt capacity chunks [] p (2 * length (concat chunks) + 2) m q hp hq
      (1, starved fmt capacity p 0 hp) (unfold consume_frame_page in e)
