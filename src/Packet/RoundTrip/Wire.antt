-- ===== src/Packet/RoundTrip/Wire.antt =====
-- A sequence of packets, sent with `Post` and received in pieces.
use netsystem.Base.{
  ℕ, suc, ◌+◌, ◌≤◌, ◌≡◌, refl, sym, ◌∙◌, ap, ap₂, true, Option, none, some, List, [], ◌∷◌, ◌++◌,
  length, drop, take, take-append-drop, map, arith, append-nil, append_assoc, ◌>>=◌, drop_all,
}
use netsystem.Packet.Page.{Format, page_size_max}
use native.Mathlib.Nat.{zero-add, add-zero}
use netsystem.Packet.Buffers.{packet_buffer_alloc, packet_buffer_free, send_capacity_hint}
use netsystem.Packet.{Packet, loop, consume_frame_page, consumed}
use netsystem.Packet.Post.{Content, encode_stream, post_pages, post, sum}
use netsystem.Packet.Feed.{concat, feed, feed-consume_frame_page}
use netsystem.Packet.RoundTrip.Deliver.{Delivers, Delivers-append, consume-Delivers}
use netsystem.Packet.RoundTrip.Accept.{IsIdle}
use netsystem.Packet.RoundTrip.Pages.{Sent}
use netsystem.Packet.RoundTrip.Message.{IsFormat, IsSendable, packet_bytes, post-Sent}

-- The bytes that go out when the packets are posted one after the other, over a connection that is
-- ready and takes each page in whole.
pub post_all : Format → (ℕ → ℕ) → Packet → List Content → Option (List ℕ)
post_all fmt old p [] = some []
post_all fmt old p (c ∷ cs) = do
  (sent, pages, q) ← post fmt old length true p c
  rest ← post_all fmt old q cs
  some (concat pages ++ rest)

abbrev pub AllSendable : Format → List Content → Type 0
AllSendable fmt [] = Unit {0}
AllSendable fmt (c ∷ cs) = IsSendable fmt c × AllSendable fmt cs

-- `Post` on a ready connection, where its loop ends.
post_of_pages :
    (fmt : Format) (old : ℕ → ℕ) (sender : Packet) (c : Content) (pages : List (List ℕ))
    → let (buf, offset) = encode_stream fmt old c in
      post_pages (suc (length c.body)) buf offset c.body ≡ some pages
      → (sender' : Packet) × (post fmt old length true sender c
          ≡ some (sum (map length pages), pages, sender'))
unfolding post
post_of_pages fmt old sender c pages e =
    let (buf, offset) = encode_stream fmt old c in
    let e' : post_pages (length c.body + 1) buf offset c.body ≡ some pages =
      ap (λ n. post_pages n buf offset c.body) (omega arith) ∙ e in
    let (b, rest) = packet_buffer_alloc sender.send_free send_capacity_hint 1 in
    (record sender { send_free = packet_buffer_free rest b; send_buf = none }, rw e' refl)

module _ (fmt : Format) (capacity : ℕ) (room : page_size_max ≤ capacity) (v : IsFormat fmt)
    (old : ℕ → ℕ) where
  -- All packets: the receiver takes the whole stream and hands them over.
  post_all-Delivers :
      (cs : List Content) (sender p : Packet)
      → AllSendable fmt cs
      → IsIdle p
      → (stream : List ℕ) × (q : Packet) × (post_all fmt old sender cs ≡ some stream)
        × Delivers fmt capacity p stream q
        × IsIdle q
        × (q.got ≡ p.got ++ map (packet_bytes fmt old) cs)
  unfolding post_all Sent
  post_all-Delivers [] sender p s idle = (
    [],
    p,
    refl,
    (0, λ f n rest. ap₂ (λ i m. loop fmt capacity i p rest m) (zero-add f) (sym (add-zero n))),
    idle,
    sym (append-nil p.got),
  )
  post_all-Delivers (c ∷ cs) sender p (s, ss) idle =
      let (pages, q, e, d, h) = post-Sent fmt capacity room v old c p s idle in
      let (sender', posted) = post_of_pages fmt old sender c pages e in
      let (stream, r, es, ds, idle', all) = post_all-Delivers cs sender' q ss h.idle in
      (
        concat pages ++ stream,
        r,
        rw (posted, es) refl,
        Delivers-append fmt capacity p q r (concat pages) stream d ds,
        idle',
        all
            ∙ ap (λ g. g ++ map (packet_bytes fmt old) cs) h.handed
            ∙ append_assoc p.got (packet_bytes fmt old c ∷ []) (map (packet_bytes fmt old) cs),
      )

-- A stream in pieces: `cuts` are the lengths of all but the last.
pub pieces : List ℕ → List ℕ → List (List ℕ)
pieces [] stream = stream ∷ []
pieces (n ∷ cuts) stream = take n stream ∷ pieces cuts (drop n stream)

concat-pieces : (cuts stream : List ℕ) → concat (pieces cuts stream) ≡ stream
unfolding pieces
concat-pieces [] stream = append-nil stream
concat-pieces (n ∷ cuts) stream =
    ap (◌++◌ (take n stream)) (concat-pieces cuts (drop n stream)) ∙ take-append-drop n stream

-- The packets of `cs` can be posted one after the other over a connection that is ready and takes
-- each page in whole; and however the stream of their pages is cut into pieces on the way, the
-- receiver, if it was between two packets with free receive buffers of the full capacity, consumes
-- every byte, hands over exactly the packets that were posted, in their order and with the bytes of
-- leading, name and body, and is between two packets again, with no page of a packet held. Each packet has a name of 1 to 255 bytes
-- and fits a receive buffer, the receive buffer of the connection holds at least one page, and the
-- bytes of the leading begin with the name length.
pub post_all-feed :
    (fmt : Format) (capacity : ℕ) (old : ℕ → ℕ) (cs : List Content) (cuts : List ℕ)
    (sender p : Packet)
    → page_size_max ≤ capacity
    → IsFormat fmt
    → AllSendable fmt cs
    → IsIdle p
    → (stream : List ℕ) × (q : Packet) × (post_all fmt old sender cs ≡ some stream)
      × (feed fmt capacity p [] (pieces cuts stream) ≡ some (q, []))
      × IsIdle q
      × (q.got ≡ p.got ++ map (packet_bytes fmt old) cs)
post_all-feed fmt capacity old cs cuts sender p room v s idle =
    let (stream, q, e, d, idle', all) =
      post_all-Delivers fmt capacity room v old cs sender p s idle in
    let chunks = pieces cuts stream in
    let whole = concat-pieces cuts stream in
    let run : consume_frame_page fmt p (concat chunks) capacity
        ≡ some (consumed (length stream), q) =
      ap (λ b. consume_frame_page fmt p b capacity) whole
      ∙ consume-Delivers fmt capacity p q stream d idle'.between in
    let none_left : drop (length stream) (concat chunks) ≡ [] =
      ap (drop (length stream)) whole ∙ drop_all (length stream) stream (omega arith) in
    (
      stream,
      q,
      e,
      feed-consume_frame_page fmt capacity chunks p (length stream) q
            (λ h. cc (sym idle.between ∙ h)) (λ h. cc (sym idle'.between ∙ h)) run
          ∙ ap (λ b. some (q, b)) none_left,
      idle',
      all,
    )
