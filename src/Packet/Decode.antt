-- ===== src/Packet/Decode.antt =====
-- `DecodeStream`: the packet layer on the receive buffer of its connection.
use netsystem.Base.{ℕ, ◌≡◌, refl, Bool-cases, inl, inr, some, List, drop, ltb, if◌then◌else◌, arith}
use netsystem.BipBuf.{BipBuf, get_capacity, get_contiguous_block, decommit}
use netsystem.BipBuf.Inv.{IsValid, contents, committed_size_lem, decommit-IsValid}
use netsystem.BipBuf.Refine.{decommit_lem}
use netsystem.Packet.Page.{Format}
use netsystem.Packet.{Packet, Outcome, consumed, failed, consume_frame_page, decode_stream}
use netsystem.Packet.Safety.{IsSafe, consume_frame_page-IsSafe}

-- The bytes left of `bytes` after a call.
unfoldable pub left_by : Outcome → List ℕ → List ℕ
left_by (consumed n) bytes = drop n bytes
left_by (failed e) bytes = bytes

decommit_consumed :
    {bb : BipBuf} (n : ℕ)
    → IsValid bb
    → let bb' = if ltb 0 n then (decommit bb n).1 else bb in
      IsValid bb' × (contents bb' ≡ drop n (contents bb))
decommit_consumed {bb} n v = elim (Bool-cases (ltb 0 n)) [
  | inl some_bytes ↦ rw some_bytes (decommit-IsValid n v, (decommit_lem n v).1)
  | inr nothing ↦ let none_consumed : n ≡ 0 = ground arith in rw (nothing, none_consumed) (v, refl)
]

-- With a valid receive buffer, and a packet object whose receive buffers keep to the full capacity
-- and whose packets handed over are well formed, `DecodeStream` always comes to an end, with the
-- bytes that it reports as consumed, and no others, gone from the front of the buffer; after an
-- error all bytes are still there. The receive buffer stays valid and the packet object as
-- described.
pub decode_stream-IsSafe :
    (fmt : Format) (p : Packet) (bb : BipBuf)
    → IsValid bb
    → IsSafe fmt p
    → (outcome : Outcome) × (q : Packet) × (bb' : BipBuf) × (decode_stream fmt p bb
        ≡ some (outcome, q, bb'))
      × (consume_frame_page fmt p (contents bb) (get_capacity bb) ≡ some (outcome, q))
      × (contents bb' ≡ left_by outcome (contents bb))
      × IsValid bb'
      × IsSafe fmt q
unfolding decode_stream get_contiguous_block left_by
decode_stream-IsSafe fmt p bb v s =
    let (outcome, q, e, s') = consume_frame_page-IsSafe fmt p (contents bb) (get_capacity bb) s in
    go outcome q e s'
  where
    go :
        (outcome : Outcome) (q : Packet)
        → consume_frame_page fmt p (contents bb) (get_capacity bb) ≡ some (outcome, q)
        → IsSafe fmt q
        → (outcome : Outcome) × (q : Packet) × (bb' : BipBuf) × (decode_stream fmt p bb
            ≡ some (outcome, q, bb'))
          × (consume_frame_page fmt p (contents bb) (get_capacity bb) ≡ some (outcome, q))
          × (contents bb' ≡ left_by outcome (contents bb))
          × IsValid bb'
          × IsSafe fmt q
    go (consumed n) q e s' =
        let (v', kept) = decommit_consumed n v in
        (
          consumed n,
          q,
          (if ltb 0 n then (decommit bb n).1 else bb),
          rw (committed_size_lem v, e),
          e,
          kept,
          v',
          s',
        )
    go (failed x) q e s' = (failed x, q, bb, rw (committed_size_lem v, e), e, refl, v, s')
