-- ===== src/Packet/Safety.antt =====
-- What holds of the decoder on any bytes, broken or hostile ones too.
use netsystem.Base.{
  ℕ, zero, suc, ◌+◌, ◌*◌, ◌≤◌, ◌≡◌, inl, inr, true, Option, none, some, List, [], ◌∷◌, ◌++◌, length,
  drop, ltb, leb, leb→le, ◌&&◌, ◌==◌, arith, length-append, if-both, subst,
}
use netsystem.Packet.Page.{
  PageState, receive_leading, receive_body, skip, PageLeading, Format, decode_leading,
  page_leading_size,
}
use netsystem.Packet.Buffers.{PacketBuffer, packet_buffer_alloc, recv_capacity_hint}
use netsystem.Packet.Buffers.Full.{AllFull, recv_size, alloc-AllFull}
use netsystem.Packet.{
  Packet, Code, ok, error, is_well_formed, fits, append_page, drop_recv_buf, consume_next_page,
  consume_first_page, consume_packet, Round, halt, fail, continue, accept_leading, leading_round,
  accept_page, body_round, skip_round, round_by, round, Outcome, consumed, failed, loop,
  consume_frame_page,
}
use netsystem.Packet.Stream.{consume_frame_page_total}

-- Every packet is well formed.
abbrev AllFormed : Format → List (List ℕ) → Type 0
AllFormed fmt [] = Unit {0}
AllFormed fmt (packet ∷ packets) = (is_well_formed fmt packet ≡ true) × AllFormed fmt packets

-- A buffer has the full capacity, and holds no more than that.
abbrev pub Bounded : Option PacketBuffer → Type 0
Bounded none = Unit {0}
Bounded (some b) = (b.cap_size ≡ recv_size) × (length b.bytes ≤ recv_size)

pub record IsSafe (fmt : Format) (p : Packet) : Type 0 where
  pub buffers : AllFull p.recv_free
  pub buffer : Bounded p.recv_buf
  pub packets : AllFormed fmt p.got

AllFormed-append :
    (fmt : Format) (ps : List (List ℕ)) (packet : List ℕ)
    → AllFormed fmt ps
    → is_well_formed fmt packet ≡ true
    → AllFormed fmt (ps ++ (packet ∷ []))
AllFormed-append fmt [] packet h good = (good, tt)
AllFormed-append fmt (p ∷ ps) packet h good = (h.0, AllFormed-append fmt ps packet h.1 good)

module _ (fmt : Format) where
  abbrev SafeCode : Code × Packet → Type 0
  SafeCode r = IsSafe fmt r.1

  append-Bounded :
      (b : PacketBuffer) (page : List ℕ)
      → b.cap_size ≡ recv_size
      → fits b page ≡ true
      → Bounded (some (append_page b page))
  append-Bounded b page full enough = (
    full,
    omega (
      arith,
      full,
      leb→le (length b.bytes + length page) b.cap_size enough,
      length-append b.bytes page,
    ),
  )

  drop-IsSafe :
      (p : Packet) (b : PacketBuffer)
      → b.cap_size ≡ recv_size
      → IsSafe fmt p
      → IsSafe fmt (drop_recv_buf p b)
  unfolding drop_recv_buf
  drop-IsSafe p b full s = record { buffers = (full, s.buffers); buffer = tt; packets = s.packets }

  consume_next_page-IsSafe :
      (p : Packet) (page : List ℕ) (b : PacketBuffer)
      → b.cap_size ≡ recv_size
      → IsSafe fmt p
      → SafeCode (consume_next_page fmt p page b)
  unfolding consume_next_page drop_recv_buf
  consume_next_page-IsSafe p page b full s =
      if-both SafeCode (ltb 0 p.leading.page_end)
        (λ last.
          if-both SafeCode (fits b page)
            (λ enough.
              if-both SafeCode (is_well_formed fmt (b.bytes ++ page))
                (λ good. record {
                  buffers = (full, s.buffers);
                  buffer = tt;
                  packets = AllFormed-append fmt p.got (b.bytes ++ page) s.packets good;
                })
                (λ bad. drop-IsSafe p (append_page b page) full s))
            (λ over. drop-IsSafe p b full s))
        (λ more.
          if-both SafeCode (fits b page)
            (λ enough. record {
              buffers = s.buffers;
              buffer = append-Bounded b page full enough;
              packets = s.packets;
            })
            (λ over. drop-IsSafe p b full s))

  consume_first_page-IsSafe :
      (p : Packet) (page : List ℕ) → IsSafe fmt p → SafeCode (consume_first_page fmt p page)
  unfolding consume_first_page drop_recv_buf
  consume_first_page-IsSafe p page s =
      let (b, rest) = packet_buffer_alloc p.recv_free recv_capacity_hint fmt.recv_num_hint in
      let (empty, full, left) = alloc-AllFull fmt.recv_num_hint p.recv_free s.buffers in
      if-both SafeCode (fits b page)
        (λ enough. record {
          buffers = left;
          buffer = append-Bounded b page full enough;
          packets = s.packets;
        })
        (λ over. record { buffers = (full, left); buffer = tt; packets = s.packets })

  consume_packet-IsSafe :
      (p : Packet) (page : List ℕ) → IsSafe fmt p → SafeCode (consume_packet fmt p page)
  unfolding consume_packet
  consume_packet-IsSafe p page s =
      if-both SafeCode (ltb 0 p.leading.page_start && ltb 0 p.leading.page_end)
        (λ whole.
          if-both SafeCode (is_well_formed fmt page)
            (λ good. record {
              buffers = s.buffers;
              buffer = s.buffer;
              packets = AllFormed-append fmt p.got page s.packets good;
            })
            (λ bad. s))
        (λ part.
          if-both SafeCode (ltb 0 p.leading.page_start)
            (λ first. consume_first_page-IsSafe p page s) (λ next. go p.recv_buf s.buffer))
    where
      go :
          (o : Option PacketBuffer)
          → Bounded o
          → SafeCode (elim o [ none ↦ (error 6, p) | some b ↦ consume_next_page fmt p page b ])
      go none h = s
      go (some b) h = consume_next_page-IsSafe p page b h.0 s

  abbrev SafeRound : Round → Type 0
  SafeRound (halt k q) = IsSafe fmt q
  SafeRound (fail e q) = IsSafe fmt q
  SafeRound (continue k q) = IsSafe fmt q

  accept_leading-SafeRound :
      (capacity : ℕ) (p : Packet) (l : PageLeading) (remains : ℕ)
      → IsSafe fmt p
      → SafeRound (accept_leading capacity p l remains)
  unfolding accept_leading
  accept_leading-SafeRound capacity p l remains s =
      if-both SafeRound (0 == l.data_size)
        (λ empty. record { buffers = s.buffers; buffer = s.buffer; packets = s.packets })
        (λ some_data.
          if-both SafeRound (leb (page_leading_size + l.data_size) capacity)
            (λ room. record { buffers = s.buffers; buffer = s.buffer; packets = s.packets })
            (λ over. record { buffers = s.buffers; buffer = s.buffer; packets = s.packets }))

  accept_page-SafeRound :
      (wants : ℕ) (r : Code × Packet) → SafeCode r → SafeRound (accept_page wants r)
  unfolding accept_page
  accept_page-SafeRound wants (ok, q) s = record {
    buffers = s.buffers;
    buffer = s.buffer;
    packets = s.packets;
  }
  accept_page-SafeRound wants (error n, q) s = s

  round_by-SafeRound :
      (state : PageState) (capacity : ℕ) (p : Packet) (ptr : List ℕ)
      → IsSafe fmt p
      → SafeRound (round_by state fmt capacity p ptr)
  unfolding round_by leading_round body_round skip_round
  round_by-SafeRound receive_leading capacity p ptr s =
      if-both SafeRound (ltb (length ptr) page_leading_size) (λ few. s)
        (λ enough. accept_leading-SafeRound capacity p (decode_leading ptr) (length ptr) s)
  round_by-SafeRound receive_body capacity p ptr s =
      if-both SafeRound (ltb (length ptr) (page_leading_size + p.leading.data_size)) (λ few. s)
        (λ enough. accept_page-SafeRound _ _ (consume_packet-IsSafe p _ s))
  round_by-SafeRound skip capacity p ptr s = record {
    buffers = s.buffers;
    buffer = s.buffer;
    packets = s.packets;
  }

  loop-IsSafe :
      (capacity fuel : ℕ) (p : Packet) (ptr : List ℕ) (n : ℕ) {r : Outcome × Packet}
      → IsSafe fmt p
      → loop fmt capacity fuel p ptr n ≡ some r
      → IsSafe fmt r.1
  unfolding loop round
  loop-IsSafe capacity zero p ptr n s e = cc
  loop-IsSafe capacity (suc fuel) p ptr n {r} s e =
      go (round_by p.state fmt capacity p ptr) (round_by-SafeRound p.state capacity p ptr s)
        (λ (q : Packet) (ptr' : List ℕ) (n' : ℕ). loop-IsSafe capacity fuel q ptr' n') e
    where
      result :
          (o : Outcome) (q : Packet)
          → ◌≡◌ {A = Option (Outcome × Packet)} (some (o, q)) (some r)
          → q ≡ r.1
      result o q e' = cc

      go :
          (x : Round)
          → SafeRound x
          → ((q : Packet) (ptr' : List ℕ) (n' : ℕ)
              → IsSafe fmt q
              → loop fmt capacity fuel q ptr' n' ≡ some r
              → IsSafe fmt r.1)
          → (elim x [
            | halt k q ↦ some (consumed (n + k), q)
            | fail m q ↦ some (failed m, q)
            | continue k q ↦ loop fmt capacity fuel q (drop k ptr) (n + k)
          ])
            ≡ some r
          → IsSafe fmt r.1
      go (halt k q) s' ih e' = subst (IsSafe fmt) (result (consumed (n + k)) q e') s'
      go (fail m q) s' ih e' = subst (IsSafe fmt) (result (failed m) q e') s'
      go (continue k q) s' ih e' = ih q (drop k ptr) (n + k) s' e'

-- On any bytes whatever `ConsumeFramePage` comes to an end with a result and a packet object in
-- which every packet handed over is well formed, and no receive buffer holds more than its capacity,
-- provided that this was so before, with receive buffers of the full capacity.
pub consume_frame_page-IsSafe :
    (fmt : Format) (p : Packet) (bytes : List ℕ) (capacity : ℕ)
    → IsSafe fmt p
    → (outcome : Outcome) × (q : Packet) × (consume_frame_page fmt p bytes capacity
        ≡ some (outcome, q))
      × IsSafe fmt q
unfolding consume_frame_page
consume_frame_page-IsSafe fmt p bytes capacity s =
    elim (consume_frame_page_total fmt p bytes capacity) [
      | inl (m, q, e, le) ↦
          (consumed m, q, e, loop-IsSafe fmt capacity (2 * length bytes + 2) p bytes 0 s e)
      | inr (x, q, e) ↦
          (failed x, q, e, loop-IsSafe fmt capacity (2 * length bytes + 2) p bytes 0 s e)
    ]
