-- ===== src/Packet/Chunks.antt =====
-- A stream of pages may be cut anywhere: the decoder that keeps the bytes it has not consumed, and
-- is called again when more of them have come, ends as the decoder that is given all at once.
use netsystem.Base.{
  ℕ, zero, suc, ◌+◌, ◌-◌, ◌*◌, ◌≤◌, ◌%◌, ◌^◌, ◌≡◌, ◌≢◌, ◌⊎◌, inl, inr, refl, sym, ◌∙◌, ap, false,
  some, List, [], ◌∷◌, ◌++◌, length, slice, drop, take, ltb, leb, ◌==◌, arith, Bool-cases,
  length-drop, drop-append_le, drop-drop, take-append_le, length-append,
}
use native.Mathlib.Nat.{add-zero, add_assoc}
use netsystem.Packet.Page.{receive_leading, receive_body, skip, PageLeading, Format, decode_leading}
use netsystem.Packet.{
  Packet, Round, halt, fail, continue, round, leading_round, body_round, accept_leading,
  accept_page, loop, Outcome, consumed, failed, consume_frame_page, Code, ok, error, consume_packet,
}
use netsystem.Packet.Stream.{
  round_leading, round_body, State-cases, loop_halt, loop_continue, loop_fail, loop_fuel,
  consume_frame_page_total,
}

decode_leading-append :
    (xs ys : List ℕ) → 2 ≤ length xs → decode_leading (xs ++ ys) ≡ decode_leading xs
unfolding decode_leading
decode_leading-append [] ys h = absurd (omega arith)
decode_leading-append (x ∷ []) ys h = absurd (omega arith)
decode_leading-append (x ∷ y ∷ xs) ys h = refl

slice-append_le :
    (at n : ℕ) (xs ys : List ℕ) → at + n ≤ length xs → slice at n (xs ++ ys) ≡ slice at n xs
slice-append_le at n xs ys h =
    ap (take n) (drop-append_le at xs ys (omega arith))
    ∙ take-append_le n (drop at xs) ys (omega (arith, length-drop at xs))

-- A round that is given some of the bytes only (`part`), against one that is given all.
Agrees : Packet → ℕ → Round → Round → Type 0
Agrees p given part all =
    (part ≡ halt 0 p)
    ⊎ (((k : ℕ) × (q : Packet) × (part ≡ continue k q)
          × (all ≡ continue k q)
          × (k ≤ given)
          × (q.state ≢ skip))
        ⊎ (((e : ℕ) × (q : Packet) × (all ≡ fail e q))
            ⊎ ((k : ℕ) × (q : Packet) × (all ≡ halt k q) × (q.state ≡ skip))))

accept_leading-Agrees :
    (capacity : ℕ) (p : Packet) (l : PageLeading) (given remains : ℕ)
    → Agrees p given (accept_leading capacity p l given) (accept_leading capacity p l remains)
unfolding accept_leading Agrees
accept_leading-Agrees capacity p l given remains = elim (Bool-cases (0 == l.data_size)) [
  | inl empty ↦ inr (inr (inl (99, record p { leading = l }, rw empty)))
  | inr some_data ↦ elim (Bool-cases (leb (2 + l.data_size) capacity)) [
    | inl room ↦ inr (
        inl (
          0,
          record p { leading = l; state = receive_body },
          rw (some_data, room),
          rw (some_data, room),
          omega arith,
          λ e. cc,
        ))
    | inr overflow ↦ inr (inr (inr (remains, skipping, rw (some_data, overflow), refl)))
  ]
]
  where
    skipping : Packet
    skipping = record p {
      state = skip;
      leading = record l { data_size = (l.data_size + (2 ^ 14 - (remains - 2) % 2 ^ 14)) % 2 ^ 14 };
    }

leading_round-Agrees :
    (capacity : ℕ) (p : Packet) (xs ys : List ℕ)
    → Agrees p (length xs) (leading_round capacity p xs) (leading_round capacity p (xs ++ ys))
unfolding leading_round
leading_round-Agrees capacity p xs ys = elim (Bool-cases (ltb (length xs) 2)) [
  | inl hungry ↦ rw hungry (unfold Agrees in inl refl)
  | inr enough ↦
      let more : ltb (length (xs ++ ys)) 2 ≡ false = ground (arith, length-append xs ys) in
      rw (more, enough, decode_leading-append xs ys (ground arith))
        (accept_leading-Agrees capacity p (decode_leading xs) (length xs) (length (xs ++ ys)))
]

accept_page-Agrees :
    (p : Packet) (wants given : ℕ) (r : Code × Packet)
    → wants ≤ given
    → Agrees p given (accept_page wants r) (accept_page wants r)
unfolding accept_page Agrees
accept_page-Agrees p wants given (ok, q) le =
    inr (inl (wants, record q { state = receive_leading }, refl, refl, le, λ e. cc))
accept_page-Agrees p wants given (error n, q) le = inr (inr (inl (n, q, refl)))

body_round-Agrees :
    (fmt : Format) (p : Packet) (xs ys : List ℕ)
    → Agrees p (length xs) (body_round fmt p xs) (body_round fmt p (xs ++ ys))
unfolding body_round
body_round-Agrees fmt p xs ys =
    let wants = 2 + p.leading.data_size in
    elim (Bool-cases (ltb (length xs) wants)) [
      | inl hungry ↦ rw hungry (unfold Agrees in inl refl)
      | inr enough ↦
          let more : ltb (length (xs ++ ys)) wants ≡ false = ground (arith, length-append xs ys) in
          rw (more, enough, slice-append_le 2 p.leading.data_size xs ys (ground arith))
            (accept_page-Agrees p wants (length xs)
              (consume_packet fmt p (slice 2 p.leading.data_size xs)) (ground arith))
    ]

round-Agrees :
    (fmt : Format) (capacity : ℕ) (p : Packet) (xs ys : List ℕ)
    → p.state ≢ skip
    → Agrees p (length xs) (round fmt capacity p xs) (round fmt capacity p (xs ++ ys))
round-Agrees fmt capacity p xs ys h = elim (State-cases p.state) [
  | inl e ↦
      rw (round_leading fmt capacity p xs e, round_leading fmt capacity p (xs ++ ys) e)
        (leading_round-Agrees capacity p xs ys)
  | inr (inl e) ↦
      rw (round_body fmt capacity p xs e, round_body fmt capacity p (xs ++ ys) e)
        (body_round-Agrees fmt p xs ys)
  | inr (inr e) ↦ absurd (h e)
]

-- A run over all the bytes that ends with bytes consumed, and no page in the middle of being
-- skipped: the run over the first of them ends so too, and the other, from there on, as before.
abbrev Splits : Format → ℕ → ℕ → Packet → List ℕ → List ℕ → ℕ → ℕ → Packet → Type 0
Splits fmt capacity fuel p xs ys n m q =
    (k : ℕ) × (p' : Packet) × (loop fmt capacity fuel p xs n ≡ some (consumed (n + k), p'))
    × (k ≤ length xs)
    × (p'.state ≢ skip)
    × (loop fmt capacity fuel p' (drop k xs ++ ys) (n + k) ≡ some (consumed m, q))

pub loop-Splits :
    (fmt : Format) (capacity fuel : ℕ) (p : Packet) (xs ys : List ℕ) (n m : ℕ) (q : Packet)
    → p.state ≢ skip
    → q.state ≢ skip
    → loop fmt capacity fuel p (xs ++ ys) n ≡ some (consumed m, q)
    → Splits fmt capacity fuel p xs ys n m q
unfolding Agrees
loop-Splits fmt capacity zero p xs ys n m q hp hq e = unfold loop in cc
loop-Splits fmt capacity (suc fuel) p xs ys n m q hp hq e =
    elim (round-Agrees fmt capacity p xs ys hp) [
      | inl hungry ↦
          (0, p, loop_halt fmt capacity p xs hungry fuel n, omega arith, hp, rw (add-zero n) e)
      | inr (inl (k, p', part, all, le, going)) ↦
          let rest : loop fmt capacity fuel p' (drop k xs ++ ys) (n + k) ≡ some (consumed m, q) =
            ap (λ b. loop fmt capacity fuel p' b (n + k)) (sym (drop-append_le k xs ys le))
            ∙ sym (loop_continue fmt capacity p (xs ++ ys) all fuel n)
            ∙ e in
          let (j, p'', ran, jle, still, after) =
            loop-Splits fmt capacity fuel p' (drop k xs) ys (n + k) m q going hq rest in
          (
            k + j,
            p'',
            loop_continue fmt capacity p xs part fuel n
                ∙ ran
                ∙ ap (λ i. some (consumed i, p'')) (add_assoc n k j),
            omega (arith, length-drop k xs),
            still,
            rw (← drop-drop k j xs, ← add_assoc n k j)
                (loop_fuel fmt capacity fuel (suc fuel) p'' (drop j (drop k xs) ++ ys) (n + k + j)
                  (omega arith) after),
          )
      | inr (inr (inl (x, p', all))) ↦ cc (sym (loop_fail fmt capacity p (xs ++ ys) all fuel n) ∙ e)
      | inr (inr (inr (k, p', all, skipping))) ↦
          absurd (hq (cc (sym (loop_halt fmt capacity p (xs ++ ys) all fuel n) ∙ e, skipping)))
    ]

-- A run that consumes `k` bytes does so whatever was consumed before it.
abbrev pub Runs : Format → ℕ → ℕ → Packet → List ℕ → ℕ → Packet → Type 0
Runs fmt capacity fuel p ptr k q =
    (n : ℕ) → loop fmt capacity fuel p ptr n ≡ some (consumed (n + k), q)

pub loop-Runs :
    (fmt : Format) (capacity fuel : ℕ) (p : Packet) (ptr : List ℕ) (n m : ℕ) (q : Packet)
    → loop fmt capacity fuel p ptr n ≡ some (consumed m, q)
    → (k : ℕ) × (m ≡ n + k) × Runs fmt capacity fuel p ptr k q
loop-Runs fmt capacity zero p ptr n m q e = unfold loop in cc
loop-Runs fmt capacity (suc fuel) p ptr n m q e =
    go (round fmt capacity p ptr) refl
      (λ (p' : Packet) (k : ℕ). loop-Runs fmt capacity fuel p' (drop k ptr) (n + k) m q)
  where
    go :
        (r : Round)
        → round fmt capacity p ptr ≡ r
        → ((p' : Packet) (k : ℕ)
            → loop fmt capacity fuel p' (drop k ptr) (n + k) ≡ some (consumed m, q)
            → (j : ℕ) × (m ≡ n + k + j) × Runs fmt capacity fuel p' (drop k ptr) j q)
        → (k : ℕ) × (m ≡ n + k) × Runs fmt capacity (suc fuel) p ptr k q
    go (halt k p') step ih =
        let halted : some (consumed (n + k), p') ≡ some (consumed m, q) =
          sym (loop_halt fmt capacity p ptr step fuel n) ∙ e in
        (k, cc halted, λ n'. loop_halt fmt capacity p ptr step fuel n' ∙ cc halted)
    go (fail x p') step ih = cc (sym (loop_fail fmt capacity p ptr step fuel n) ∙ e)
    go (continue k p') step ih =
        let (j, sum, ran) = ih p' k (sym (loop_continue fmt capacity p ptr step fuel n) ∙ e) in
        (
          k + j,
          sum ∙ add_assoc n k j,
          λ n'.
              loop_continue fmt capacity p ptr step fuel n'
              ∙ ran (n' + k)
              ∙ ap (λ i. some (consumed i, q)) (add_assoc n' k j),
        )

-- The fuel of `ConsumeFramePage` is enough: a run with any fuel is its run.
pub consume_frame_page_of_loop :
    (fmt : Format) (capacity fuel : ℕ) (p : Packet) (ptr : List ℕ) (r : Outcome × Packet)
    → loop fmt capacity fuel p ptr 0 ≡ some r
    → consume_frame_page fmt p ptr capacity ≡ some r
unfolding consume_frame_page
consume_frame_page_of_loop fmt capacity fuel p ptr r e =
    go (consume_frame_page_total fmt p ptr capacity)
  where
    enough : ℕ
    enough = 2 * length ptr + 2

    same :
        (r' : Outcome × Packet)
        → loop fmt capacity enough p ptr 0 ≡ some r'
        → loop fmt capacity enough p ptr 0 ≡ some r
    same r' e' =
        e'
        ∙ sym (loop_fuel fmt capacity enough (fuel + enough) p ptr 0 (omega arith) e')
        ∙ loop_fuel fmt capacity fuel (fuel + enough) p ptr 0 (omega arith) e

    go :
        ((m : ℕ) × (q : Packet) × (consume_frame_page fmt p ptr capacity ≡ some (consumed m, q))
            × (m ≤ length ptr))
          ⊎ ((x : ℕ) × (q : Packet) × (consume_frame_page fmt p ptr capacity ≡ some (failed x, q)))
        → loop fmt capacity enough p ptr 0 ≡ some r
    go (inl (m, q, e', le)) = same _ e'
    go (inr (x, q, e')) = same _ e'
