-- ===== src/Packet/RoundTrip/Pages.antt =====
-- The pages of one packet, first to last: the loop of `Post` against the loop of `ConsumeFramePage`.
use netsystem.Base.{
  ℕ, zero, suc, ◌+◌, ◌-◌, ◌≤◌, ◌<◌, ◌≡◌, refl, sym, subst, ◌∙◌, ap, inl, inr, true, some, List, [],
  ◌∷◌, ◌++◌, length, drop, take, ltb, ◌==◌, if◌then◌else◌, arith, append-nil, append_assoc,
  length-append, Bool-cases, ltb→lt, take_all, length-take, length-drop, take-append-drop,
}
use netsystem.Packet.Page.{receive_leading, Format, page_size_max}
use netsystem.Packet.Buffers.Full.{recv_size}
use netsystem.Packet.{Packet, ok, consume_packet, is_well_formed}
use netsystem.Packet.Post.{
  SendBuffer, post_pages, post_last, post_more, fill, page_bytes, not_first,
}
use netsystem.Packet.Feed.{concat}
use netsystem.Packet.RoundTrip.Deliver.{Delivers, Delivers-append, page-Delivers}
use netsystem.Packet.RoundTrip.Accept.{IsFilling, HasGot, consume_middle, consume_last, reading}

-- The bit that says whether `n` bytes end with a page that takes `k` of them.
pub not_the_end : (n k : ℕ) → k < n → ◌≡◌ {A = ℕ} (if n - k == 0 then 1 else 0) 0
not_the_end n k lt = ground arith

pub the_end : (n : ℕ) → ◌≡◌ {A = ℕ} (if n - n == 0 then 1 else 0) 1
the_end n = ground arith

module _ (fmt : Format) (capacity : ℕ) (room : page_size_max ≤ capacity) where
  -- The pages that the loop of `Post` sends are delivered, and hand `packet` over.
  unfoldable pub Sent : ℕ → SendBuffer → ℕ → List ℕ → Packet → List ℕ → List (List ℕ) → Type 0
  Sent fuel buf offset ptr p packet got =
      (pages : List (List ℕ)) × (q : Packet) × (post_pages fuel buf offset ptr ≡ some pages)
      × Delivers fmt capacity p (concat pages) q
      × HasGot q packet got

  -- A page of the send buffer is a page of its leading's size.
  pub filled-Delivers :
      (p q : Packet) (buf : SendBuffer)
      → p.state ≡ receive_leading
      → buf.leading.page_start < 2
      → buf.leading.page_end < 2
      → 0 < buf.leading.data_size
      → 2 + buf.leading.data_size ≤ page_size_max
      → length buf.payload ≡ buf.leading.data_size
      → consume_packet fmt (reading p buf.leading) buf.payload ≡ (ok, q)
      → Delivers fmt capacity p (page_bytes buf) (record q { state = receive_leading })
  filled-Delivers p q buf idle start end pos small size accepted =
      page-Delivers fmt capacity p q buf.leading buf.payload idle
        (record { start_bit = start; end_bit = end; size_bits = omega arith }) pos (omega arith)
        size accepted

  -- The last page, and a page with others behind it.
  pub last_page :
      (fuel : ℕ) (buf : SendBuffer) (offset : ℕ) (ptr : List ℕ) (p q : Packet)
      (page packet : List ℕ) (got : List (List ℕ))
      → post_pages fuel buf offset ptr ≡ some (page ∷ [])
      → Delivers fmt capacity p page q
      → HasGot q packet got
      → Sent fuel buf offset ptr p packet got
  unfolding Sent
  last_page fuel buf offset ptr p q page packet got e d h =
      (page ∷ [], q, e, subst (λ b. Delivers fmt capacity p b q) (sym (append-nil page)) d, h)

  pub more_pages :
      (fuel : ℕ) (buf : SendBuffer) (offset : ℕ) (ptr : List ℕ) (p q : Packet) (packet : List ℕ)
      (got : List (List ℕ))
      → offset ≤ page_size_max
      → page_size_max < offset + length ptr
      → let k = page_size_max - offset in
        Delivers fmt capacity p (page_bytes (fill buf offset ptr k)) q
        → Sent fuel (not_first (fill buf offset ptr k)) 2 (drop k ptr) q packet got
        → Sent (suc fuel) buf offset ptr p packet got
  unfolding Sent
  more_pages fuel buf offset ptr p q packet got le more d (pages, r, e, d', h) =
      let page = page_bytes (fill buf offset ptr (page_size_max - offset)) in
      (
        page ∷ pages,
        r,
        post_more fuel buf offset ptr le more e,
        Delivers-append fmt capacity p q r page (concat pages) d d',
        h,
      )

  -- the pages behind the first one
  pub rest-Sent :
      (fuel : ℕ) (ptr : List ℕ) (buf : SendBuffer) (p : Packet) (bytes : List ℕ)
      (got : List (List ℕ))
      → length ptr < fuel
      → 0 < length ptr
      → buf.leading.page_start ≡ 0
      → IsFilling p bytes got
      → length bytes + length ptr ≤ recv_size
      → is_well_formed fmt (bytes ++ ptr) ≡ true
      → Sent fuel buf 2 ptr p (bytes ++ ptr) got
  rest-Sent zero ptr buf p bytes got fuels pos start f fits good = absurd (omega arith)
  rest-Sent (suc fuel) ptr buf p bytes got fuels pos start f fits good =
      elim (Bool-cases (ltb page_size_max (2 + length ptr))) [
        | inl more ↦
            let k : ℕ = page_size_max - 2 in
            let page = fill buf 2 ptr k in
            let chunk = take k ptr in
            let long = ltb→lt page_size_max (2 + length ptr) more in
            let size : length chunk ≡ k = omega (arith, length-take k ptr) in
            let ends : page.leading.page_end ≡ 0 = not_the_end (length ptr) k (omega arith) in
            let (q, accepted, f') =
              consume_middle fmt p page.leading chunk bytes got start ends f (omega arith) in
            let whole : (bytes ++ chunk) ++ drop k ptr ≡ bytes ++ ptr =
              append_assoc bytes chunk (drop k ptr) ∙ ap (◌++◌ bytes) (take-append-drop k ptr) in
            let q' : Packet = record q { state = receive_leading } in
            more_pages fuel buf 2 ptr p q' (bytes ++ ptr) got (omega arith) long
              (filled-Delivers p q page f.between (omega arith) (omega arith) (omega arith)
                (omega arith) size accepted)
              (subst (λ x. Sent fuel (not_first page) 2 (drop k ptr) q' x got) whole
                (rest-Sent fuel (drop k ptr) (not_first page) q' (bytes ++ chunk) got
                  (omega (arith, length-drop k ptr)) (omega (arith, length-drop k ptr)) refl f'
                  (omega (arith, length-drop k ptr, length-append bytes chunk)) (rw whole good)))
        | inr last ↦
            let page = fill buf 2 ptr (length ptr) in
            let ends : page.leading.page_end ≡ 1 = the_end (length ptr) in
            let all : take (length ptr) ptr ≡ ptr = take_all (length ptr) ptr (omega arith) in
            let (q, accepted, h) =
              consume_last fmt p page.leading ptr bytes got start ends f fits good in
            last_page (suc fuel) buf 2 ptr p (record q { state = receive_leading })
              (page_bytes page) (bytes ++ ptr) got (post_last fuel buf 2 ptr (ground arith))
              (filled-Delivers p q page f.between (omega arith) (omega arith) (omega arith)
                (ground arith) (omega (arith, ap length all))
                (ap (consume_packet fmt (reading p page.leading)) all ∙ accepted))
              h
      ]
