-- ===== src/Packet/Stream.antt =====
-- The decoder over a stream that arrives in pieces: it always stops, it consumes no more than it
-- got, and how the bytes are cut into pieces makes no difference.
use netsystem.Base.{
  ℕ, zero, suc, ◌+◌, ◌-◌, ◌*◌, ◌≤◌, ◌<◌, ◌≡◌, ◌⊎◌, inl, inr, refl, ap, Option, some, List, length,
  drop, arith, length-drop,
}
use netsystem.Packet.Page.{PageState, receive_leading, receive_body, skip, Format}
use netsystem.Packet.{
  Packet, Round, halt, fail, continue, round, round_by, leading_round, body_round, accept_leading,
  accept_page, skip_round, loop, Outcome, consumed, failed, consume_frame_page,
}

abbrev is_leading : PageState → ℕ
is_leading receive_leading = 1
is_leading receive_body = 0
is_leading skip = 0

-- What a round that goes on has done: the measure of the loop falls.
GoesOn : Packet → List ℕ → Round → Type 0
GoesOn p ptr (continue k q) =
    (k ≤ length ptr)
    × (2 * (length ptr - k) + is_leading q.state < 2 * length ptr + is_leading p.state)
GoesOn p ptr (halt k q) = k ≤ length ptr
GoesOn p ptr (fail e q) = Unit

leading_round-GoesOn :
    (capacity : ℕ) (p : Packet) (ptr : List ℕ)
    → p.state ≡ receive_leading
    → GoesOn p ptr (leading_round capacity p ptr)
unfolding leading_round accept_leading GoesOn
leading_round-GoesOn capacity p ptr e = ground arith

body_round-GoesOn :
    (fmt : Format) (p : Packet) (ptr : List ℕ)
    → p.state ≡ receive_body
    → GoesOn p ptr (body_round fmt p ptr)
unfolding body_round accept_page GoesOn
body_round-GoesOn fmt p ptr e = ground arith

skip_round-GoesOn : (p : Packet) (ptr : List ℕ) → GoesOn p ptr (skip_round p ptr)
unfolding skip_round GoesOn
skip_round-GoesOn p ptr = omega arith

pub State-cases : (s : PageState) → (s ≡ receive_leading) ⊎ ((s ≡ receive_body) ⊎ (s ≡ skip))
State-cases receive_leading = inl refl
State-cases receive_body = inr (inl refl)
State-cases skip = inr (inr refl)

pub round_leading :
    (fmt : Format) (capacity : ℕ) (p : Packet) (ptr : List ℕ)
    → p.state ≡ receive_leading
    → round fmt capacity p ptr ≡ leading_round capacity p ptr
unfolding round round_by
round_leading fmt capacity p ptr e = ap (λ s. round_by s fmt capacity p ptr) e

pub round_body :
    (fmt : Format) (capacity : ℕ) (p : Packet) (ptr : List ℕ)
    → p.state ≡ receive_body
    → round fmt capacity p ptr ≡ body_round fmt p ptr
unfolding round round_by
round_body fmt capacity p ptr e = ap (λ s. round_by s fmt capacity p ptr) e

round_skip :
    (fmt : Format) (capacity : ℕ) (p : Packet) (ptr : List ℕ)
    → p.state ≡ skip
    → round fmt capacity p ptr ≡ skip_round p ptr
unfolding round round_by
round_skip fmt capacity p ptr e = ap (λ s. round_by s fmt capacity p ptr) e

round-GoesOn :
    (fmt : Format) (capacity : ℕ) (p : Packet) (ptr : List ℕ)
    → GoesOn p ptr (round fmt capacity p ptr)
round-GoesOn fmt capacity p ptr = elim (State-cases p.state) [
  | inl e ↦ rw (round_leading fmt capacity p ptr e) (leading_round-GoesOn capacity p ptr e)
  | inr (inl e) ↦ rw (round_body fmt capacity p ptr e) (body_round-GoesOn fmt p ptr e)
  | inr (inr e) ↦ rw (round_skip fmt capacity p ptr e) (skip_round-GoesOn p ptr)
]

-- What the loop returns for a run from `n` bytes on: never more than it was given.
Ends : ℕ → List ℕ → Option (Outcome × Packet) → Type 0
Ends n ptr r =
    ((m : ℕ) × (q : Packet) × (r ≡ some (consumed m, q)) × (n ≤ m) × (m ≤ n + length ptr))
    ⊎ ((e : ℕ) × (q : Packet) × (r ≡ some (failed e, q)))

Ends-drop :
    (n k : ℕ) (ptr : List ℕ) (r : Option (Outcome × Packet))
    → k ≤ length ptr
    → Ends (n + k) (drop k ptr) r
    → Ends n ptr r
unfolding Ends
Ends-drop n k ptr r le (inl (m, q, e, lo, hi)) =
    inl (m, q, e, omega arith, omega (arith, length-drop k ptr))
Ends-drop n k ptr r le (inr f) = inr f

-- The loop by what its next round does.
pub loop_halt :
    (fmt : Format) (capacity : ℕ) (p : Packet) (ptr : List ℕ) {k : ℕ} {q : Packet}
    → round fmt capacity p ptr ≡ halt k q
    → (fuel n : ℕ) → loop fmt capacity (suc fuel) p ptr n ≡ some (consumed (n + k), q)
unfolding loop
loop_halt fmt capacity p ptr e fuel n = rw (e, loop)

pub loop_fail :
    (fmt : Format) (capacity : ℕ) (p : Packet) (ptr : List ℕ) {x : ℕ} {q : Packet}
    → round fmt capacity p ptr ≡ fail x q
    → (fuel n : ℕ) → loop fmt capacity (suc fuel) p ptr n ≡ some (failed x, q)
unfolding loop
loop_fail fmt capacity p ptr e fuel n = rw (e, loop)

pub loop_continue :
    (fmt : Format) (capacity : ℕ) (p : Packet) (ptr : List ℕ) {k : ℕ} {q : Packet}
    → round fmt capacity p ptr ≡ continue k q
    → (fuel n : ℕ)
    → loop fmt capacity (suc fuel) p ptr n ≡ loop fmt capacity fuel q (drop k ptr) (n + k)
unfolding loop
loop_continue fmt capacity p ptr e fuel n = rw (e, loop)

loop-Ends :
    (fmt : Format) (capacity fuel : ℕ) (p : Packet) (ptr : List ℕ) (n : ℕ)
    → 2 * length ptr + is_leading p.state < fuel
    → Ends n ptr (loop fmt capacity fuel p ptr n)
unfolding GoesOn Ends
loop-Ends fmt capacity zero p ptr n h = absurd (omega arith)
loop-Ends fmt capacity (suc fuel) p ptr n h =
    go (round fmt capacity p ptr) (round-GoesOn fmt capacity p ptr) refl
      (loop-Ends fmt capacity fuel)
  where
    go :
        (r : Round)
        → GoesOn p ptr r
        → round fmt capacity p ptr ≡ r
        → ((p' : Packet) (ptr' : List ℕ) (n' : ℕ)
            → 2 * length ptr' + is_leading p'.state < fuel
            → Ends n' ptr' (loop fmt capacity fuel p' ptr' n'))
        → Ends n ptr (loop fmt capacity (suc fuel) p ptr n)
    go (halt k q) g e ih =
        rw (loop_halt fmt capacity p ptr e fuel n) (inl (n + k, q, refl, omega arith, omega arith))
    go (fail x q) g e ih = rw (loop_fail fmt capacity p ptr e fuel n) (inr (x, q, refl))
    go (continue k q) g e ih =
        rw (loop_continue fmt capacity p ptr e fuel n) (
          Ends-drop n k ptr _ g.0 (ih q (drop k ptr) (n + k) (omega (arith, g, length-drop k ptr))))

-- `ConsumeFramePage` returns for any input, with an error or with a number of bytes consumed that is
-- no more than it was given.
pub consume_frame_page_total :
    (fmt : Format) (p : Packet) (bytes : List ℕ) (capacity : ℕ)
    → ((m : ℕ) × (q : Packet) × (consume_frame_page fmt p bytes capacity ≡ some (consumed m, q))
        × (m ≤ length bytes))
      ⊎ ((e : ℕ) × (q : Packet) × (consume_frame_page fmt p bytes capacity ≡ some (failed e, q)))
unfolding consume_frame_page Ends
consume_frame_page_total fmt p bytes capacity =
    go (loop-Ends fmt capacity (2 * length bytes + 2) p bytes 0 (below p.state))
  where
    below : (s : PageState) → 2 * length bytes + is_leading s < 2 * length bytes + 2
    below receive_leading = omega arith
    below receive_body = omega arith
    below skip = omega arith

    go :
        {r : Option (Outcome × Packet)}
        → Ends 0 bytes r
        → ((m : ℕ) × (q : Packet) × (r ≡ some (consumed m, q)) × (m ≤ length bytes))
          ⊎ ((e : ℕ) × (q : Packet) × (r ≡ some (failed e, q)))
    go (inl (m, q, e, lo, hi)) = inl (m, q, e, omega arith)
    go (inr f) = inr f

-- More fuel gives the same result.
pub loop_fuel :
    (fmt : Format) (capacity fuel more : ℕ) (p : Packet) (ptr : List ℕ) (n : ℕ)
    {r : Outcome × Packet}
    → fuel ≤ more
    → loop fmt capacity fuel p ptr n ≡ some r
    → loop fmt capacity more p ptr n ≡ some r
unfolding loop
loop_fuel fmt capacity zero more p ptr n le e = cc
loop_fuel fmt capacity (suc fuel) zero p ptr n le e = absurd (omega arith)
loop_fuel fmt capacity (suc fuel) (suc more) p ptr n {r} le e =
    go (round fmt capacity p ptr) e (λ (q : Packet) (ptr' : List ℕ) (n' : ℕ).
      loop_fuel fmt capacity fuel more q ptr' n' (omega arith))
  where
    next : ℕ → Round → Option (Outcome × Packet)
    next f (halt k q) = some (consumed (n + k), q)
    next f (fail x q) = some (failed x, q)
    next f (continue k q) = loop fmt capacity f q (drop k ptr) (n + k)

    go :
        (x : Round)
        → next fuel x ≡ some r
        → ((q : Packet) (ptr' : List ℕ) (n' : ℕ)
            → loop fmt capacity fuel q ptr' n' ≡ some r
            → loop fmt capacity more q ptr' n' ≡ some r)
        → next more x ≡ some r
    go (halt k q) e ih = e
    go (fail x q) e ih = e
    go (continue k q) e ih = ih q (drop k ptr) (n + k) e
