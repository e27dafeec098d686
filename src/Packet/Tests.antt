-- ===== src/Packet/Tests.antt =====
-- The theorems about the framing at concrete packets and bytes.
use netsystem.Base.{
  ℕ, ◌≤◌, ◌≡◌, ◌⊎◌, inl, refl, none, some, List, [], ◌∷◌, ◌++◌, drop, map, replicate,
  length-replicate, arith,
}
use netsystem.BipBuf.{BipBuf, get_capacity}
use netsystem.BipBuf.Inv.{IsValid, contents}
use netsystem.Packet.Page.{receive_leading, decode_leading, inner, outer}
use netsystem.Packet.Buffers.{fresh_buffer}
use netsystem.Packet.{
  Packet, Outcome, consumed, failed, consume_frame_page, decode_stream, loop, round, round_by,
  leading_round, accept_leading, body_round, accept_page, consume_packet, is_well_formed,
}
use netsystem.Packet.Post.{Content}
use netsystem.Packet.Stream.{consume_frame_page_total}
use netsystem.Packet.Feed.{concat, feed, feed-consume_frame_page}
use netsystem.Packet.Safety.{IsSafe, consume_frame_page-IsSafe}
use netsystem.Packet.Decode.{decode_stream-IsSafe, left_by}
use netsystem.Packet.RoundTrip.{
  IsIdle, inner-IsFormat, AllSendable, packet_bytes, post_all, pieces, post_all-feed,
}

-- a packet object with one receive buffer on the free list
abbrev fresh_state : Packet
fresh_state = record {
  state = receive_leading;
  leading = record { page_start = 0; page_end = 0; data_size = 0 };
  recv_buf = none;
  send_buf = none;
  recv_free = fresh_buffer 0xf0000 ∷ [];
  send_free = [];
  got = [];
}

fresh_state-IsIdle : IsIdle fresh_state
fresh_state-IsIdle = record { between = refl; none_held = refl; buffers = (refl, tt) }

fresh_state-IsSafe : IsSafe outer fresh_state
fresh_state-IsSafe = record { buffers = (refl, tt); buffer = tt; packets = tt }

-- a packet of one page, and one of two
abbrev contents_sent : List Content
contents_sent =
    record { uuid = 7; serial_no = 1; name = 97 ∷ []; body = 1 ∷ 2 ∷ 3 ∷ [] }
    ∷ record { uuid = 8; serial_no = 2; name = 97 ∷ 98 ∷ []; body = replicate 9000 5 }
    ∷ []

contents_sent-AllSendable : AllSendable inner contents_sent
contents_sent-AllSendable = (
  record { has_name = omega arith; short_name = omega arith; fits = omega arith },
  (
    record {
      has_name = omega arith;
      short_name = omega arith;
      fits = omega (arith, length-replicate {A = ℕ} 9000 5);
    },
    tt,
  ),
)

abbrev zero_bytes : ℕ → ℕ
zero_bytes i = 0

post_all-feed_example :
    (stream : List ℕ) × (q : Packet) × (post_all inner zero_bytes fresh_state contents_sent
      ≡ some stream)
    × (feed inner 8192 fresh_state [] (pieces (1 ∷ 5000 ∷ 30 ∷ []) stream) ≡ some (q, []))
    × IsIdle q
    × (q.got ≡ fresh_state.got ++ map (packet_bytes inner zero_bytes) contents_sent)
post_all-feed_example =
    post_all-feed inner 8192 zero_bytes contents_sent (1 ∷ 5000 ∷ 30 ∷ []) fresh_state fresh_state
      (omega arith) inner-IsFormat contents_sent-AllSendable fresh_state-IsIdle

-- One page with an outer packet of four bytes, and the first byte of a further page.
abbrev arrived : List (List ℕ)
arrived = (19 ∷ []) ∷ (0 ∷ 1 ∷ 0 ∷ []) ∷ (97 ∷ 7 ∷ 5 ∷ []) ∷ []

abbrev after_page : Packet
after_page = record fresh_state {
  leading = record { page_start = 1; page_end = 1; data_size = 4 };
  got = (1 ∷ 0 ∷ 97 ∷ 7 ∷ []) ∷ [];
}

arrived_lem :
    consume_frame_page outer fresh_state (concat arrived) 8192 ≡ some (consumed 6, after_page)
unfolding consume_frame_page loop round round_by leading_round accept_leading body_round accept_page
    consume_packet is_well_formed decode_leading
arrived_lem = refl

feed-consume_frame_page_example :
    feed outer 8192 fresh_state [] arrived ≡ some (after_page, drop 6 (concat arrived))
feed-consume_frame_page_example =
    feed-consume_frame_page outer 8192 arrived fresh_state 6 after_page (λ e. cc) (λ e. cc)
      arrived_lem

consume_frame_page_total_example :
    ((m : ℕ) × (q : Packet) × (consume_frame_page outer fresh_state (1 ∷ 2 ∷ 3 ∷ []) 8192
        ≡ some (consumed m, q))
      × (m ≤ 3))
    ⊎ ((e : ℕ) × (q : Packet) × (consume_frame_page outer fresh_state (1 ∷ 2 ∷ 3 ∷ []) 8192
          ≡ some (failed e, q)))
consume_frame_page_total_example = consume_frame_page_total outer fresh_state (1 ∷ 2 ∷ 3 ∷ []) 8192

consume_frame_page-IsSafe_example :
    (outcome : Outcome) × (q : Packet) × (consume_frame_page outer fresh_state (concat arrived) 8192
      ≡ some (outcome, q))
    × IsSafe outer q
consume_frame_page-IsSafe_example =
    consume_frame_page-IsSafe outer fresh_state (concat arrived) 8192 fresh_state-IsSafe

-- a receive buffer of capacity 8 that holds these bytes
abbrev filled : BipBuf
filled = record {
  buffer = 19 ∷ 0 ∷ 1 ∷ 0 ∷ 97 ∷ 7 ∷ 5 ∷ replicate 9 0;
  available_capacity = 8;
  committed_sum = 7;
  a_start = 0;
  a_end = 7;
  r_start = 0;
  r_end = 0;
}

filled-IsValid : IsValid filled
filled-IsValid = record {
  block = refl;
  small = omega arith;
  ordered = omega arith;
  inside = omega arith;
  fits = omega arith;
  reserved = inl (refl, refl);
}

decode_stream-IsSafe_example :
    (outcome : Outcome) × (q : Packet) × (bb' : BipBuf) × (decode_stream outer fresh_state filled
      ≡ some (outcome, q, bb'))
    × (consume_frame_page outer fresh_state (contents filled) (get_capacity filled)
        ≡ some (outcome, q))
    × (contents bb' ≡ left_by outcome (contents filled))
    × IsValid bb'
    × IsSafe outer q
decode_stream-IsSafe_example =
    decode_stream-IsSafe outer fresh_state filled filled-IsValid fresh_state-IsSafe
