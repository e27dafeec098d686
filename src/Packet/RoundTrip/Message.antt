-- ===== src/Packet/RoundTrip/Message.antt =====
-- A whole packet, from `EncodeStream` and `Post` to the callback of the receiver.
use netsystem.Base.{
  ℕ, zero, suc, ◌+◌, ◌-◌, ◌%◌, ◌/◌, ◌≤◌, ◌<◌, ◌≡◌, refl, subst, ◌∙◌, ap, ap₂, inl, inr, true, List,
  [], ◌∷◌, ◌++◌, length, drop, take, ltb, leb, get_or, arith, append_assoc, length-append,
  Bool-cases, ltb→lt, take_all, length-take, length-drop, take-append-drop,
}
use netsystem.Packet.Page.{receive_leading, Format, page_size_max, bytes_of, inner, outer}
use netsystem.Packet.Buffers.Full.{recv_size}
use netsystem.Packet.{Packet, consume_packet, is_well_formed}
use netsystem.Packet.Post.{
  SendBuffer, Content, encode_stream, post_last, fill, page_bytes, not_first,
}
use netsystem.Packet.RoundTrip.Accept.{IsIdle, consume_single, consume_first, reading}
use netsystem.Packet.RoundTrip.Pages.{
  Sent, filled-Delivers, not_the_end, the_end, last_page, more_pages, rest-Sent,
}

-- What the packet layer needs of a packet format.
pub record IsFormat (fmt : Format) : Type 0 where
  pub small : fmt.leading_size ≤ 16
  pub named :
      (old : ℕ → ℕ) (n serial_no uuid : ℕ)
      → (others : List ℕ) × (fmt.write_leading old n serial_no uuid ≡ (n % 256) ∷ others)
        × (suc (length others) ≡ fmt.leading_size)

length-bytes_of : (k n : ℕ) → length (bytes_of k n) ≡ k
length-bytes_of zero n = refl
length-bytes_of (suc k) n = ap suc (length-bytes_of k (n / 256))

-- Both formats of the library are such.
pub inner-IsFormat : IsFormat inner
inner-IsFormat = record {
  small = omega arith;
  named = λ old n serial_no uuid. (_, refl, ap (λ k. 8 + k) (length-bytes_of 8 uuid));
}

outer-IsFormat : IsFormat outer
outer-IsFormat = record { small = omega arith; named = λ old n serial_no uuid. (_, refl, refl) }

-- The bytes of a packet: leading, name, body.
abbrev pub packet_bytes : Format → (ℕ → ℕ) → Content → List ℕ
packet_bytes fmt old c =
    (fmt.write_leading old (length c.name) c.serial_no c.uuid ++ c.name) ++ c.body

-- The packet has a name that one byte can count, and fits a receive buffer.
pub record IsSendable (fmt : Format) (c : Content) : Type 0 where
  pub has_name : 0 < length c.name
  pub short_name : length c.name < 256
  pub fits : fmt.leading_size + length c.name + length c.body ≤ recv_size

length-head :
    (fmt : Format) (old : ℕ → ℕ) (c : Content)
    → IsFormat fmt
    → length (fmt.write_leading old (length c.name) c.serial_no c.uuid ++ c.name)
      ≡ fmt.leading_size + length c.name
length-head fmt old c v =
    let (others, e, size) = v.named old (length c.name) c.serial_no c.uuid in
    length-append (fmt.write_leading old (length c.name) c.serial_no c.uuid) c.name
    ∙ ap (λ n. n + length c.name) (ap length e ∙ size)

well_formed_of :
    (fmt : Format) (n : ℕ) (xs : List ℕ)
    → get_or xs 0 0 ≡ n
    → 0 < n
    → fmt.leading_size + n ≤ length xs
    → is_well_formed fmt xs ≡ true
unfolding is_well_formed
well_formed_of fmt n xs first pos le =
    let some_name : ltb 0 n ≡ true = ground arith in
    let long : leb (fmt.leading_size + n) (length xs) ≡ true = ground arith in
    rw (first, some_name, long)

-- A packet that may be sent is well formed for the receiver.
packet_bytes-is_well_formed :
    (fmt : Format) (old : ℕ → ℕ) (c : Content)
    → IsFormat fmt
    → IsSendable fmt c
    → is_well_formed fmt (packet_bytes fmt old c) ≡ true
packet_bytes-is_well_formed fmt old c v s =
    let (others, e, size) = v.named old (length c.name) c.serial_no c.uuid in
    let name_len : length c.name % 256 ≡ length c.name = omega (arith, s.short_name) in
    well_formed_of fmt (length c.name) (packet_bytes fmt old c)
      (ap (λ xs. get_or ((xs ++ c.name) ++ c.body) 0 0) e ∙ name_len) s.has_name
      (omega (
        arith,
        length-append (fmt.write_leading old (length c.name) c.serial_no c.uuid ++ c.name) c.body,
        length-head fmt old c v,
      ))

module _ (fmt : Format) (capacity : ℕ) (room : page_size_max ≤ capacity) (v : IsFormat fmt) where
  -- The loop of `Post` on `buf`, which holds leading and name: the body fits into the first page.
  single-Sent :
      (buf : SendBuffer) (offset : ℕ) (body : List ℕ) (p : Packet)
      → buf.leading.page_start ≡ 1
      → length buf.payload + 2 ≡ offset
      → 2 < offset
      → offset + length body ≤ page_size_max
      → IsIdle p
      → is_well_formed fmt (buf.payload ++ body) ≡ true
      → Sent fmt capacity room (suc (length body)) buf offset body p (buf.payload ++ body) p.got
  single-Sent buf offset body p start at pos last idle good =
      let page = fill buf offset body (length body) in
      let whole : page.payload ≡ buf.payload ++ body =
        ap₂ (λ xs ys. xs ++ ys) (take_all (offset - 2) buf.payload (omega (arith, at)))
          (take_all (length body) body (omega arith)) in
      let accepted =
        ap (consume_packet fmt (reading p page.leading)) whole
        ∙ consume_single fmt p page.leading (buf.payload ++ body) start (the_end (length body))
            good in
      let q : Packet = record (reading p page.leading) {
        got = p.got ++ ((buf.payload ++ body) ∷ []);
      } in
      last_page fmt capacity room (suc (length body)) buf offset body p
        (record q { state = receive_leading }) (page_bytes page) (buf.payload ++ body) p.got
        (post_last (length body) buf offset body last)
        (filled-Delivers fmt capacity room p q page idle.between (omega (arith, start))
          (omega (arith, the_end (length body))) (omega arith) (omega arith)
          (omega (arith, ap length whole, length-append buf.payload body, at)) accepted)
        (record {
          idle = record { between = refl; none_held = idle.none_held; buffers = idle.buffers };
          handed = refl;
        })

  -- The body does not fit into the first page.
  several-Sent :
      (buf : SendBuffer) (offset : ℕ) (body : List ℕ) (p : Packet)
      → buf.leading.page_start ≡ 1
      → length buf.payload + 2 ≡ offset
      → 2 < offset
      → offset < page_size_max
      → page_size_max < offset + length body
      → length buf.payload + length body ≤ recv_size
      → IsIdle p
      → is_well_formed fmt (buf.payload ++ body) ≡ true
      → Sent fmt capacity room (suc (length body)) buf offset body p (buf.payload ++ body) p.got
  several-Sent buf offset body p start at pos within more fits idle good =
      let k : ℕ = page_size_max - offset in
      let page = fill buf offset body k in
      let bytes = buf.payload ++ take k body in
      let first : page.payload ≡ bytes =
        ap (λ xs. xs ++ take k body) (take_all (offset - 2) buf.payload (omega (arith, at))) in
      let taken : length (take k body) ≡ k = omega (arith, length-take k body) in
      let size : length bytes ≡ offset + k - 2 =
        omega (arith, length-append buf.payload (take k body), taken, at) in
      let open_end = not_the_end (length body) k (omega arith) in
      let (q, accepted, filling) =
        consume_first fmt p page.leading bytes start open_end idle (omega (arith, size)) in
      let q' : Packet = record q { state = receive_leading } in
      let whole : bytes ++ drop k body ≡ buf.payload ++ body =
        append_assoc buf.payload (take k body) (drop k body)
        ∙ ap (◌++◌ buf.payload) (take-append-drop k body) in
      let left = length-drop k body in
      more_pages fmt capacity room (length body) buf offset body p q' (buf.payload ++ body) p.got
        (omega arith) more
        (filled-Delivers fmt capacity room p q page idle.between (omega (arith, start))
          (omega (arith, open_end)) (omega arith) (omega arith)
          (omega (arith, ap length first, size))
          (ap (consume_packet fmt (reading p page.leading)) first ∙ accepted))
        (subst
          (λ x. Sent fmt capacity room (length body) (not_first page) 2 (drop k body) q' x p.got)
          whole
          (rest-Sent fmt capacity room (length body) (drop k body) (not_first page) q' bytes p.got
            (omega (arith, left)) (omega (arith, left)) refl filling (omega (arith, left, size))
            (rw whole good)))

  -- Post cuts a packet into pages; fed to an idle decoder, they hand the packet over.
  pub post-Sent :
      (old : ℕ → ℕ) (c : Content) (p : Packet)
      → IsSendable fmt c
      → IsIdle p
      → let (buf, offset) = encode_stream fmt old c in
        Sent fmt capacity room
          (suc (length c.body))
          buf
          offset
          c.body
          p
          (packet_bytes fmt old c)
          p.got
  unfolding encode_stream
  post-Sent old c p s idle =
      let (buf, offset) = encode_stream fmt old c in
      let head = length-head fmt old c v in
      let good = packet_bytes-is_well_formed fmt old c v s in
      elim (Bool-cases (ltb page_size_max (offset + length c.body))) [
        | inl more ↦
            several-Sent buf offset c.body p refl (omega (arith, head)) (omega (arith, s.has_name))
              (omega (arith, s.short_name, v.small))
              (ltb→lt page_size_max (offset + length c.body) more) (omega (arith, s.fits, head))
              idle good
        | inr last ↦
            single-Sent buf offset c.body p refl (omega (arith, head)) (omega (arith, s.has_name))
              (ground arith) idle good
      ]
