-- ===== src/Packet/Page.antt =====
-- src/tcp/tcp_packet_def.h: the leading of a frame page and the leadings of the two packet formats,
-- as bytes (bit fields from the lowest bit, words with the lowest byte first).
use netsystem.Base.{ℕ, zero, suc, ◌+◌, ◌*◌, ◌/◌, ◌%◌, ◌^◌, List, [], ◌∷◌, get_or}

-- TCP_STREAM_READ_SIZE and PER_FRAME_PAGE_SIZE_MAX
abbrev pub page_size_max : ℕ
page_size_max = 8192

-- FULL_PACKET_MAX_SIZE_HINT
abbrev pub full_packet_max_size_hint : ℕ
full_packet_max_size_hint = 0xf0000

-- SIZE_OF_FRAME_PAGE_LEADING
abbrev pub page_leading_size : ℕ
page_leading_size = 2

pub data PageState : Type 0 where
  receive_leading receive_body skip : PageState

-- `tcp_frame_page_leading_t`: two flags of one bit, and 14 bits.
pub record PageLeading : Type 0 where
  pub page_start : ℕ
  pub page_end : ℕ
  pub data_size : ℕ

-- what a store into the bit field `data_size` keeps
abbrev pub field_14 : ℕ → ℕ
field_14 n = n % 2 ^ 14

abbrev leading_word : PageLeading → ℕ
leading_word l = l.page_start % 2 + 2 * (l.page_end % 2) + 4 * field_14 l.data_size

unfoldable pub encode_leading : PageLeading → List ℕ
encode_leading l = (leading_word l % 256) ∷ (leading_word l / 256) ∷ []

-- `*(tcp_frame_page_leading_t *)ptr`
unfoldable pub decode_leading : List ℕ → PageLeading
decode_leading ptr =
    let word = get_or ptr 0 0 + 256 * get_or ptr 1 0 in
    record { page_start = word % 2; page_end = word / 2 % 2; data_size = field_14 (word / 4) }

-- a `uint64_t` as bytes, the lowest first
abbrev pub bytes_of : ℕ → ℕ → List ℕ
bytes_of zero n = []
bytes_of (suc count) n = (n % 256) ∷ bytes_of count (n / 256)

-- A packet format: the size of its leading, the bytes of the leading for a name length, a serial
-- number and a uuid, and how many buffers an empty free list is filled with. `old` gives the bytes
-- that stood in the send buffer before, which fields that nobody writes keep.
pub record Format : Type 0 where
  pub leading_size : ℕ
  pub write_leading : (ℕ → ℕ) → ℕ → ℕ → ℕ → List ℕ
  pub recv_num_hint : ℕ

-- `tcp_inner_packet_leading_t`: 16 bytes, of which `_1` and `_2` are never written.
abbrev pub inner : Format
inner = record {
  leading_size = 16;
  write_leading = λ old name_len serial_no uuid.
      (name_len % 256)
      ∷ (serial_no % 256)
      ∷ old 2
      ∷ old 3
      ∷ old 4
      ∷ old 5
      ∷ old 6
      ∷ old 7
      ∷ bytes_of 8 uuid;
  recv_num_hint = 1;
}

-- `tcp_outer_packet_leading_t`: 2 bytes.
abbrev pub outer : Format
outer = record {
  leading_size = 2;
  write_leading = λ old name_len serial_no uuid. (name_len % 256) ∷ (serial_no % 256) ∷ [];
  recv_num_hint = 64;
}
