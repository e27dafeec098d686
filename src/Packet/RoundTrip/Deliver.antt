-- ===== src/Packet/RoundTrip/Deliver.antt =====
-- Bytes that the decoder takes in whole, page by page.
use netsystem.Base.{
  ℕ, suc, ◌+◌, ◌^◌, ◌≤◌, ◌<◌, ◌≡◌, refl, sym, ◌∙◌, ap, ap₂, true, false, some, List, [], ◌++◌,
  length, slice, drop, take, ltb, leb, ◌==◌, arith, append-nil, append_assoc, length-append,
  take-append_length, drop-append_length,
}
use native.Mathlib.Nat.{add_assoc, add-zero, zero-add}
use netsystem.Packet.Page.{
  receive_leading, receive_body, PageLeading, encode_leading, decode_leading, Format,
}
use netsystem.Packet.{
  Packet, continue, leading_round, accept_leading, body_round, accept_page, loop, consumed,
  consume_frame_page, ok, consume_packet,
}
use netsystem.Packet.Stream.{loop_continue, round_leading, round_body}
use netsystem.Packet.Chunks.{consume_frame_page_of_loop}
use netsystem.Packet.Feed.{starved}

-- The fields of a page leading hold their values.
pub record IsLeading (l : PageLeading) : Type 0 where
  pub start_bit : l.page_start < 2
  pub end_bit : l.page_end < 2
  pub size_bits : l.data_size < 2 ^ 14

-- A page leading whose fields fit their bits is read back from its two bytes, whatever follows them.
decode-encode_leading :
    (l : PageLeading) (rest : List ℕ) → IsLeading l → decode_leading (encode_leading l ++ rest) ≡ l
unfolding encode_leading decode_leading
decode-encode_leading l rest v = ground arith

length-encode_leading : (l : PageLeading) → length (encode_leading l) ≡ 2
unfolding encode_leading
length-encode_leading l = refl

module _ (fmt : Format) (capacity : ℕ) where
  -- The decoder takes all of `bytes` and goes on as `q` with what follows.
  abbrev pub Delivers : Packet → List ℕ → Packet → Type 0
  Delivers p bytes q =
      (k : ℕ) × ((f n : ℕ) (rest : List ℕ)
        → loop fmt capacity (k + f) p (bytes ++ rest) n
          ≡ loop fmt capacity f q rest (n + length bytes))

  pub Delivers-append :
      (p q r : Packet) (xs ys : List ℕ)
      → Delivers p xs q
      → Delivers q ys r
      → Delivers p (xs ++ ys) r
  Delivers-append p q r xs ys (j, first) (k, second) = (
    j + k,
    λ f n rest.
        ap₂ (λ i b. loop fmt capacity i p b n) (add_assoc j k f) (append_assoc xs ys rest)
        ∙ first (k + f) n (ys ++ rest)
        ∙ second f (n + length xs) rest
        ∙ ap (loop fmt capacity f r rest) (omega (arith, length-append xs ys)),
  )

  pub consume-Delivers :
      (p q : Packet) (bytes : List ℕ)
      → Delivers p bytes q
      → q.state ≡ receive_leading
      → consume_frame_page fmt p bytes capacity ≡ some (consumed (length bytes), q)
  consume-Delivers p q bytes (k, run) idle =
      consume_frame_page_of_loop fmt capacity (k + 1) p bytes _ (
        ap (λ b. loop fmt capacity (k + 1) p b 0) (sym (append-nil bytes))
        ∙ run 1 0 []
        ∙ ap (loop fmt capacity 1 q []) (zero-add (length bytes))
        ∙ starved fmt capacity q (length bytes) (λ e. cc (sym idle ∙ e))
        ∙ ap (λ i. some (consumed i, q)) (add-zero (length bytes)))

  leading_round_page :
      (p : Packet) (l : PageLeading) (rest : List ℕ)
      → IsLeading l
      → 0 < l.data_size
      → 2 + l.data_size ≤ capacity
      → leading_round capacity p (encode_leading l ++ rest)
        ≡ continue 0 (record p { leading = l; state = receive_body })
  unfolding leading_round accept_leading
  leading_round_page p l rest v pos room =
      let long : ltb (length (encode_leading l ++ rest)) 2 ≡ false =
        unfold encode_leading in ground arith in
      let some_data : (0 == l.data_size) ≡ false = ground arith in
      let fits : leb (2 + l.data_size) capacity ≡ true = ground arith in
      rw (long, decode-encode_leading l rest v, some_data, fits)

  body_round_page :
      (p q : Packet) (l : PageLeading) (page rest : List ℕ)
      → length page ≡ p.leading.data_size
      → consume_packet fmt p page ≡ (ok, q)
      → body_round fmt p (encode_leading l ++ (page ++ rest))
        ≡ continue (2 + p.leading.data_size) (record q { state = receive_leading })
  unfolding body_round accept_page encode_leading
  body_round_page p q l page rest size accepted =
      let bytes = encode_leading l ++ (page ++ rest) in
      let long : ltb (length bytes) (2 + p.leading.data_size) ≡ false =
        ground (arith, length-append page rest) in
      let body : slice 2 p.leading.data_size bytes ≡ page =
        ap (λ n. take n (page ++ rest)) (sym size) ∙ take-append_length page rest in
      rw (long, body, accepted)

  drop_page :
      (l : PageLeading) (page rest : List ℕ) (n : ℕ)
      → length page ≡ n
      → drop (2 + n) (encode_leading l ++ (page ++ rest)) ≡ rest
  unfolding encode_leading
  drop_page l page rest n size =
      let whole : 2 + n ≡ suc (suc (length page)) = omega arith in
      rw whole (drop-append_length page rest)

  -- A page is delivered where the packet layer accepts its data.
  pub page-Delivers :
      (p q : Packet) (l : PageLeading) (page : List ℕ)
      → p.state ≡ receive_leading
      → IsLeading l
      → 0 < l.data_size
      → 2 + l.data_size ≤ capacity
      → length page ≡ l.data_size
      → consume_packet fmt (record p { leading = l; state = receive_body }) page ≡ (ok, q)
      → Delivers p (encode_leading l ++ page) (record q { state = receive_leading })
  page-Delivers p q l page idle v pos room size accepted = (2, run)
    where
      run :
          (f n : ℕ) (rest : List ℕ)
          → loop fmt capacity (2 + f) p ((encode_leading l ++ page) ++ rest) n
            ≡ loop fmt capacity f
                (record q { state = receive_leading })
                rest
                (n + length (encode_leading l ++ page))
      run f n rest =
          let bytes = encode_leading l ++ (page ++ rest) in
          let reading = record p { leading = l; state = receive_body } in
          ap₂ (λ i b. loop fmt capacity i p b n) (omega arith)
            (append_assoc (encode_leading l) page rest)
          ∙ loop_continue fmt capacity p bytes
              (round_leading fmt capacity p bytes idle
                ∙ leading_round_page p l (page ++ rest) v pos room)
              (suc f) n
          ∙ loop_continue fmt capacity reading bytes
              (round_body fmt capacity reading bytes refl
                ∙ body_round_page reading q l page rest size accepted)
              f (n + 0)
          ∙ ap₂ (loop fmt capacity f (record q { state = receive_leading }))
              (drop_page l page rest l.data_size size)
              (omega (arith, length-append (encode_leading l) page, length-encode_leading l))
