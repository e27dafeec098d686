-- ===== src/Packet/RoundTrip/Accept.antt =====
-- What `ConsumePacket` makes of the single page, and of the first, a middle and the last page, of a
-- packet that fits its receive buffer.
use netsystem.Base.{
  ℕ, ◌+◌, ◌≤◌, ◌≡◌, refl, ap, ap₂, true, false, none, some, List, [], ◌∷◌, ◌++◌, length, ltb, leb,
  arith,
}
use netsystem.Packet.Page.{receive_leading, receive_body, PageLeading, Format}
use netsystem.Packet.Buffers.{PacketBuffer, packet_buffer_alloc, recv_capacity_hint}
use netsystem.Packet.{
  Packet, ok, consume_packet, consume_first_page, consume_next_page, is_well_formed, drop_recv_buf,
}
use netsystem.Packet.Buffers.Full.{AllFull, recv_size, alloc-AllFull}

-- The decoder between two packets: it waits for a leading, and no page of a packet is held.
pub record IsIdle (p : Packet) : Type 0 where
  pub between : p.state ≡ receive_leading
  pub none_held : p.recv_buf ≡ none
  pub buffers : AllFull p.recv_free

-- The decoder has taken `bytes` of a packet, and waits for a further page.
pub record IsFilling (p : Packet) (bytes : List ℕ) (got : List (List ℕ)) : Type 0 where
  pub between : p.state ≡ receive_leading
  pub buffers : AllFull p.recv_free
  pub buffer :
      (b : PacketBuffer) × (p.recv_buf ≡ some b) × (b.bytes ≡ bytes) × (b.cap_size ≡ recv_size)
  pub same_got : p.got ≡ got

-- The decoder has handed `packet` over.
pub record HasGot (p : Packet) (packet : List ℕ) (got : List (List ℕ)) : Type 0 where
  pub idle : IsIdle p
  pub handed : p.got ≡ got ++ (packet ∷ [])

-- The state in which the loop calls `ConsumePacket`.
abbrev pub reading : Packet → PageLeading → Packet
reading p l = record p { leading = l; state = receive_body }

module _ (fmt : Format) where
  pub consume_single :
      (p : Packet) (l : PageLeading) (page : List ℕ)
      → l.page_start ≡ 1
      → l.page_end ≡ 1
      → is_well_formed fmt page ≡ true
      → consume_packet fmt (reading p l) page
        ≡ (ok, record (reading p l) { got = p.got ++ (page ∷ []) })
  unfolding consume_packet
  consume_single p l page first last good = rw (first, last, good)

  pub consume_first :
      (p : Packet) (l : PageLeading) (page : List ℕ)
      → l.page_start ≡ 1
      → l.page_end ≡ 0
      → IsIdle p
      → length page ≤ recv_size
      → (q : Packet) × (consume_packet fmt (reading p l) page ≡ (ok, q))
        × IsFilling (record q { state = receive_leading }) page p.got
  unfolding consume_packet consume_first_page
  consume_first p l page first last idle small =
      let (b, rest) = packet_buffer_alloc p.recv_free recv_capacity_hint fmt.recv_num_hint in
      let (empty, full, left) = alloc-AllFull fmt.recv_num_hint p.recv_free idle.buffers in
      let held : PacketBuffer = record b { bytes = b.bytes ++ page } in
      let enough : leb (length b.bytes + length page) b.cap_size ≡ true =
        ground (arith, ap length empty, full) in
      (
        record (reading p l) { recv_free = rest; recv_buf = some held },
        rw (first, last, enough),
        record {
          between = refl;
          buffers = left;
          buffer = (held, refl, ap (λ xs. xs ++ page) empty, full);
          same_got = refl;
        },
      )

  pub consume_middle :
      (p : Packet) (l : PageLeading) (page bytes : List ℕ) (got : List (List ℕ))
      → l.page_start ≡ 0
      → l.page_end ≡ 0
      → IsFilling p bytes got
      → length bytes + length page ≤ recv_size
      → (q : Packet) × (consume_packet fmt (reading p l) page ≡ (ok, q))
        × IsFilling (record q { state = receive_leading }) (bytes ++ page) got
  unfolding consume_packet consume_next_page
  consume_middle p l page bytes got first last f small =
      let (b, here, same, full) = f.buffer in
      let not_first : ltb 0 l.page_start ≡ false = ground arith in
      let ends : ltb 0 l.page_end ≡ false = ground arith in
      let held : PacketBuffer = record b { bytes = b.bytes ++ page } in
      let enough : leb (length b.bytes + length page) b.cap_size ≡ true =
        ground (arith, ap length same, full) in
      (
        record (reading p l) { recv_buf = some held },
        rw (not_first, here, ends, enough),
        record {
          between = refl;
          buffers = f.buffers;
          buffer = (held, refl, ap (λ xs. xs ++ page) same, full);
          same_got = f.same_got;
        },
      )

  pub consume_last :
      (p : Packet) (l : PageLeading) (page bytes : List ℕ) (got : List (List ℕ))
      → l.page_start ≡ 0
      → l.page_end ≡ 1
      → IsFilling p bytes got
      → length bytes + length page ≤ recv_size
      → is_well_formed fmt (bytes ++ page) ≡ true
      → (q : Packet) × (consume_packet fmt (reading p l) page ≡ (ok, q))
        × HasGot (record q { state = receive_leading }) (bytes ++ page) got
  unfolding consume_packet consume_next_page drop_recv_buf
  consume_last p l page bytes got first last f small good =
      let (b, here, same, full) = f.buffer in
      let not_first : ltb 0 l.page_start ≡ false = ground arith in
      let ends : ltb 0 l.page_end ≡ true = ground arith in
      let held : PacketBuffer = record b { bytes = b.bytes ++ page } in
      let enough : leb (length b.bytes + length page) b.cap_size ≡ true =
        ground (arith, ap length same, full) in
      (
        record (reading p l) {
          recv_buf = none;
          recv_free = held ∷ p.recv_free;
          got = p.got ++ ((b.bytes ++ page) ∷ []);
        },
        rw (not_first, here, ends, enough, ap (λ xs. is_well_formed fmt (xs ++ page)) same, good),
        record {
          idle = record { between = refl; none_held = refl; buffers = (full, f.buffers) };
          handed = ap₂ (λ g xs. g ++ ((xs ++ page) ∷ [])) f.same_got same;
        },
      )
