-- ===== src/Packet/Post.antt =====
-- Sending (src/tcp/TcpInnerPacket.cpp, `EncodeStream` and `Post`): a packet is cut into pages, each of
-- which goes to `SendRaw` of the connection.
use netsystem.Base.{
  ℕ, zero, suc, ◌+◌, ◌-◌, ◌≤◌, ◌<◌, ◌≡◌, arith, min, Bool, false, Option, none, some, List, [], ◌∷◌,
  ◌++◌, length, map, drop, take, ltb, ◌==◌, if◌then◌else◌, ◌>>=◌,
}
use netsystem.Packet.Page.{PageLeading, encode_leading, page_leading_size, page_size_max, Format}
use netsystem.Packet.Buffers.{packet_buffer_alloc, packet_buffer_free, send_capacity_hint}
use netsystem.Packet.{Packet}

-- The send buffer: the page leading at its start, and the bytes behind that.
pub record SendBuffer : Type 0 where
  pub leading : PageLeading
  pub payload : List ℕ

-- The packet: uuid, serial number, name and body (`packet_content_t`).
pub record Content : Type 0 where
  pub uuid : ℕ
  pub serial_no : ℕ
  pub name : List ℕ
  pub body : List ℕ

-- `EncodeStream`, with `nOutBodyOffset`.
unfoldable pub encode_stream : Format → (ℕ → ℕ) → Content → SendBuffer × ℕ
encode_stream fmt old c = (
  record {
    leading = record {
      page_start = 1;
      page_end = 0;
      data_size = fmt.leading_size + length c.name + length c.body;
    };
    payload = fmt.write_leading old (length c.name) c.serial_no c.uuid ++ c.name;
  },
  page_leading_size + fmt.leading_size + length c.name,
)

-- The send buffer with `nsends` bytes of `ptr` put at `offset`, and its leading set for that.
abbrev pub fill : SendBuffer → ℕ → List ℕ → ℕ → SendBuffer
fill buf offset ptr nsends = record {
  leading = record (buf.leading) {
    page_end = if length ptr - nsends == 0 then 1 else 0;
    data_size = offset + nsends - page_leading_size;
  };
  payload = take (offset - page_leading_size) buf.payload ++ take nsends ptr;
}

abbrev pub page_bytes : SendBuffer → List ℕ
page_bytes buf = encode_leading buf.leading ++ buf.payload

-- No further page is the first one.
abbrev pub not_first : SendBuffer → SendBuffer
not_first buf = record buf { leading = record (buf.leading) { page_start = 0 } }

-- The loop of `Post`: the pages sent, for the bytes of the body from `ptr` on, which are put at
-- `offset`. `none` is a page leading and name that leave no page (a negative `nsends`), or the fuel
-- used up.
pub post_pages : ℕ → SendBuffer → ℕ → List ℕ → Option (List (List ℕ))
post_pages zero buf offset ptr = none
post_pages (suc fuel) buf offset ptr =
    let nsends = min (page_size_max - offset) (length ptr) in
    let page = fill buf offset ptr nsends in
    let rest = post_pages fuel (not_first page) page_leading_size (drop nsends ptr) in
    if ltb page_size_max offset
    then none
    else (if length ptr - nsends == 0
        then some (page_bytes page ∷ [])
        else (rest >>= λ pages. some (page_bytes page ∷ pages)))

-- The loop where the bytes left fit into the page, and where they do not.
pub post_last :
    (fuel : ℕ) (buf : SendBuffer) (offset : ℕ) (ptr : List ℕ)
    → offset + length ptr ≤ page_size_max
    → post_pages (suc fuel) buf offset ptr
      ≡ some (page_bytes (fill buf offset ptr (length ptr)) ∷ [])
unfolding post_pages
post_last fuel buf offset ptr le =
    let within : ltb page_size_max offset ≡ false = ground arith in
    let nsends : min (page_size_max - offset) (length ptr) ≡ length ptr = omega arith in
    let none_left : length ptr - length ptr ≡ 0 = omega arith in rw (within, nsends, none_left)

pub post_more :
    (fuel : ℕ) (buf : SendBuffer) (offset : ℕ) (ptr : List ℕ) {pages : List (List ℕ)}
    → offset ≤ page_size_max
    → page_size_max < offset + length ptr
    → let k = page_size_max - offset in
      post_pages fuel (not_first (fill buf offset ptr k)) page_leading_size (drop k ptr)
        ≡ some pages
      → post_pages (suc fuel) buf offset ptr
        ≡ some (page_bytes (fill buf offset ptr (page_size_max - offset)) ∷ pages)
unfolding post_pages
post_more fuel buf offset ptr le more e =
    let within : ltb page_size_max offset ≡ false = ground arith in
    let nsends : min (page_size_max - offset) (length ptr) ≡ page_size_max - offset = omega arith in
    let some_left : (length ptr - (page_size_max - offset) == 0) ≡ false = ground arith in
    rw (within, nsends, e, some_left)

abbrev pub sum : List ℕ → ℕ
sum [] = 0
sum (n ∷ ns) = n + sum ns

-- `Post`: the bytes sent, the pages given to `SendRaw`, and the packet object. `send_raw` is what the
-- connection answers for a page, `ready` its `IsReady()`.
unfoldable pub post :
    Format → (ℕ → ℕ) → (List ℕ → ℕ) → Bool → Packet → Content → Option (ℕ × List (List ℕ) × Packet)
unfolding encode_stream
post fmt old send_raw ready p c =
    let (b, rest) = packet_buffer_alloc p.send_free send_capacity_hint 1 in
    let (buf, offset) = encode_stream fmt old c in
    let sent = post_pages (length c.body + 1) buf offset c.body in
    if ready
    then (do
      pages ← sent
      some (
        sum (map send_raw pages),
        pages,
        record p { send_free = packet_buffer_free rest b; send_buf = none },
      ))
    else some (0, [], p)
