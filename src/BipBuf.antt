-- ===== src/BipBuf.antt =====
-- src/base/bip_buf.c: the receive buffer of a connection, one contiguous committed region A and at
-- most one reservation behind it, in a block of twice the usable capacity.
-- Pointers into the block are indices into `buffer`. A function that copies memory returns an
-- option, whose `none` is undefined behaviour: an access outside the block, or a `memcpy` between
-- ranges that overlap.
pub mod Inv
pub mod Place
pub mod Refine
pub mod Stream
pub mod Grow
pub mod Search
mod Tests
use netsystem.Base.{
  ℕ, ◌+◌, ◌-◌, ◌*◌, ◌/◌, ◌%◌, ◌^◌, Bool, ◌&&◌, ◌||◌, Option, none, some, List, length, take, slice,
  overwrite, ltb, leb, ◌==◌, if◌then◌else◌, add_size, sub_size, sub_u32, add_u32, bit_or, ◌>>=◌,
}

-- `struct bip_buf_s`; `committed_sum`, an `int`, is its bit pattern.
pub record BipBuf : Type 0 where
  pub buffer : List ℕ
  pub available_capacity : ℕ
  pub committed_sum : ℕ
  pub a_start : ℕ
  pub a_end : ℕ
  pub r_start : ℕ
  pub r_end : ℕ

-- x |= x >> k
abbrev pub smear : ℕ → ℕ → ℕ
smear k x = bit_or x (x / 2 ^ k)

-- `next_power_of_two` over a `uint32_t`
pub next_power_of_two : ℕ → ℕ
next_power_of_two x = add_u32 (smear 16 (smear 8 (smear 4 (smear 2 (smear 1 (sub_u32 x 1)))))) 1

-- `memcpy(block + dst, block + src, n)`
pub memcpy_within : List ℕ → ℕ → ℕ → ℕ → Option (List ℕ)
memcpy_within block dst src n =
    if leb (src + n) (length block)
      && leb (dst + n) (length block)
      && (leb (dst + n) src || leb (src + n) dst)
    then some (overwrite block dst (slice src n block))
    else none

-- `memcpy(to + dst, from + src, n)` for two blocks
pub memcpy_between : List ℕ → ℕ → List ℕ → ℕ → ℕ → Option (List ℕ)
memcpy_between to dst from src n =
    if leb (src + n) (length from) && leb (dst + n) (length to)
    then some (overwrite to dst (slice src n from))
    else none

pub get_capacity : BipBuf → ℕ
get_capacity bb = bb.available_capacity

pub get_committed_size : BipBuf → ℕ
get_committed_size bb = sub_size bb.a_end bb.a_start

pub get_reservation_size : BipBuf → ℕ
get_reservation_size bb = sub_size bb.r_end bb.r_start

pub is_empty : BipBuf → Bool
is_empty bb = 0 == get_committed_size bb

is_full : BipBuf → Bool
is_full bb = get_capacity bb == get_committed_size bb

-- `reset` is an `int`, and only a positive one clears the sum; it is given by that test.
get_committed_sum : BipBuf → Bool → ℕ × BipBuf
get_committed_sum bb reset =
    (bb.committed_sum, record bb { committed_sum = if reset then 0 else bb.committed_sum })

-- the index of the first committed byte
unfoldable pub get_contiguous_block : BipBuf → ℕ
get_contiguous_block bb = bb.a_start

pub reset : BipBuf → BipBuf
reset bb = record bb { a_start = 0; a_end = 0; r_start = 0; r_end = 0 }

-- The check of region A, which `bip_buf_reserve` and `bip_buf_force_reserve` both make: an empty
-- region goes back to the start of the block, and one with too little room behind it is moved there.
pub place_region_a : BipBuf → ℕ → Option BipBuf
place_region_a bb size =
    let region_a_size = get_committed_size bb in
    if region_a_size == 0
    then some (record bb { a_start = 0; a_end = 0 })
    else (if ltb (sub_size (add_size bb.available_capacity bb.available_capacity) bb.a_end) size
        then (do
          buffer ← memcpy_within bb.buffer 0 bb.a_start region_a_size
          some (record bb { buffer = buffer; a_start = 0; a_end = region_a_size }))
        else some bb)

-- region Reserve of `size` bytes behind region A
abbrev pub set_reservation : BipBuf → ℕ → BipBuf
set_reservation bb size = record bb { r_start = bb.a_end; r_end = add_size bb.a_end size }

-- The pointer that the call returns (`none` for NULL), what it writes to `*size`, and the buffer.
pub reserve : BipBuf → Option (Option ℕ × ℕ × BipBuf)
reserve bb =
    let freespace = sub_size bb.available_capacity (get_committed_size bb) in
    if ltb 0 (get_reservation_size bb)
    then some (none, 0, bb)
    else (if 0 == freespace then some (none, 0, bb) else (do
      placed ← place_region_a bb freespace
      some (some placed.a_end, freespace, set_reservation placed freespace)))

pub commit : BipBuf → ℕ → BipBuf
commit bb size =
    let reservation_size = get_reservation_size bb in
    let reserved = ltb 0 reservation_size in
    let clipped =
      if reserved then (if ltb reservation_size size then reservation_size else size) else size in
    record bb {
      a_end = if reserved then add_size bb.r_start clipped else bb.a_end;
      r_start = 0;
      r_end = 0;
      committed_sum = (bb.committed_sum + clipped) % 2 ^ 32;
    }

-- The number of bytes released, and the buffer.
pub decommit : BipBuf → ℕ → ℕ × BipBuf
decommit bb size =
    let committed_size = get_committed_size bb in
    let bytes = if leb committed_size size then committed_size else size in
    (bytes, record bb { a_start = add_size bb.a_start bytes })

-- What a client of `reserve` does before `commit`: it stores bytes from the returned pointer on.
pub store : BipBuf → ℕ → List ℕ → BipBuf
store bb at bytes = record bb { buffer = overwrite bb.buffer at bytes }

-- One round of the read loop of a connection (src/tcp/kj/KjTcpConnection.cpp, `AsyncReadLoop`), in
-- which the stream delivers the first of `incoming`, as many as fit into the reservation. Without
-- a reservation the loop waits.
pub receive : BipBuf → List ℕ → Option BipBuf
receive bb incoming = do
  (bufbase, buflen, bb') ← reserve bb
  some (elim bufbase [
    | none ↦ bb'
    | some at ↦
        let amount = take buflen incoming in
        if ltb 0 buflen then commit (store bb' at amount) (length amount) else bb'
  ])

-- `malloc n` gives a block of arbitrary content. `live` counts the blocks that `malloc` and
-- `calloc` gave out and that are not freed.
module _ (malloc : ℕ → List ℕ) where
  pub create : ℕ → ℕ → ℕ × BipBuf
  create live capacity = (
    live + 2,
    record {
      buffer = malloc ((capacity * 2) % 2 ^ 64);
      available_capacity = capacity;
      committed_sum = 0;
      a_start = 0;
      a_end = 0;
      r_start = 0;
      r_end = 0;
    },
  )

  -- `next_power_of_two` takes its `size_t` argument as a `uint32_t`.
  pub grown_capacity : BipBuf → ℕ → ℕ
  grown_capacity bb size = next_power_of_two (add_size bb.available_capacity size % 2 ^ 32)

  -- The branch that grows the block. It frees the old block only where region A is not empty.
  pub grow : ℕ → BipBuf → ℕ → Option (ℕ × BipBuf)
  grow live bb size =
      let buf_size = get_committed_size bb in
      let capacity = grown_capacity bb size in
      let block = malloc (add_size capacity capacity) in
      if 0 == buf_size
      then some (
        live + 1,
        record bb { available_capacity = capacity; buffer = block; a_start = 0; a_end = 0 },
      )
      else (do
        buffer ← memcpy_between block 0 bb.buffer bb.a_start buf_size
        some (
          live + 1 - 1,
          record bb {
            available_capacity = capacity;
            buffer = buffer;
            a_start = 0;
            a_end = buf_size;
          },
        ))

  pub force_reserve : ℕ → BipBuf → ℕ → Option (Option ℕ × ℕ × BipBuf)
  force_reserve live bb size =
      let freespace = sub_size bb.available_capacity (get_committed_size bb) in
      if ltb 0 (get_reservation_size bb) || 0 == size
      then some (none, live, bb)
      else (if 0 == freespace
          then some (none, live, bb)
          else (if ltb freespace size
              then (do
                (live', grown) ← grow live bb size
                some (some grown.a_end, live', set_reservation grown size))
              else (do
                placed ← place_region_a bb size
                some (some placed.a_end, live, set_reservation placed size))))

-- `bip_buf_destroy` frees the block and the struct.
destroy : ℕ → BipBuf → ℕ
destroy live bb = live - 2
