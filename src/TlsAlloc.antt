-- ===== src/TlsAlloc.antt =====
-- src/tcp/uv/uv_tls_alloc.c: the free lists of handles, of requests and of buffers that a thread keeps.
-- An item is its address. `fresh` is the address that `malloc` returns, if it is called. `live` holds
-- the addresses that `malloc` gave out for the list and that are not freed.
pub mod Owned
pub mod Calls
mod Tests
use netsystem.Base.{
  leb, Option, none, some, ℕ, ◌+◌, ◌-◌, ◌%◌, ◌^◌, List, [], ◌∷◌, ◌==◌, if◌then◌else◌, remove,
  sub_size,
}

pub record FreeList : Type 0 where
  pub items : List ℕ
  pub live : List ℕ

-- The head of the list, or a new item.
unfoldable pub pop : ℕ → List ℕ → List ℕ → ℕ × FreeList
pop fresh [] live = (fresh, record { items = []; live = fresh ∷ live })
pop fresh (item ∷ items) live = (item, record { items = items; live = live })

abbrev pub push : FreeList → ℕ → FreeList
push s item = record s { items = item ∷ s.items }

-- The loop that frees the items one by one: what is live after it.
unfoldable pub free_all : List ℕ → List ℕ → List ℕ
free_all [] live = live
free_all (item ∷ items) live = free_all items (remove item live)

unfoldable pub tls_handle_alloc : ℕ → FreeList → ℕ × FreeList
tls_handle_alloc fresh s = pop fresh s.items s.live

unfoldable pub tls_handle_free : FreeList → ℕ → FreeList
tls_handle_free s uvhandle = push s uvhandle

unfoldable pub tls_clear_handle_freelist : FreeList → FreeList
tls_clear_handle_freelist s = record { items = []; live = free_all s.items s.live }

unfoldable pub tls_req_alloc : ℕ → FreeList → ℕ × FreeList
tls_req_alloc fresh s = pop fresh s.items s.live

unfoldable pub tls_req_free : FreeList → ℕ → FreeList
tls_req_free s uvreq = push s uvreq

unfoldable pub tls_clear_req_freelist : FreeList → FreeList
tls_clear_req_freelist s = record { items = []; live = free_all s.items s.live }

-- `uv_buf_t`
pub record UvBuf : Type 0 where
  pub base : ℕ
  pub len : ℕ

-- The buffers: the free list, and the `uvbuf` that each item holds.
pub record BufList : Type 0 where
  pub list : FreeList
  pub uvbuf : ℕ → UvBuf

-- sizeof(buf_list_t), with pointers of 8 bytes
abbrev pub item_size : ℕ
item_size = 24

-- What is stored in a new item. `len_bits` is the width of `len`, which is 32 or 64 by platform.
unfoldable pub new_uvbuf : ℕ → ℕ → ℕ → UvBuf
new_uvbuf len_bits item suggested_size = record {
  base = item + item_size;
  len = sub_size (suggested_size % 2 ^ 32) item_size % 2 ^ len_bits;
}

-- A new block that is too small for the item is written to behind its end, which is `none`.
unfoldable pub pop_buf : ℕ → ℕ → ℕ → List ℕ → BufList → Option (UvBuf × BufList)
pop_buf len_bits fresh suggested_size [] s =
    let new = new_uvbuf len_bits fresh suggested_size in
    if leb item_size suggested_size
    then some (
      new,
      record {
        list = record { items = []; live = fresh ∷ s.list.live };
        uvbuf = λ item. if item == fresh then new else s.uvbuf item;
      },
    )
    else none
pop_buf len_bits fresh suggested_size (item ∷ items) s =
    some (s.uvbuf item, record s { list = record (s.list) { items = items } })

-- A buffer taken from the list keeps the length that it was made with.
unfoldable pub tls_buf_alloc_simple : ℕ → ℕ → ℕ → BufList → Option (UvBuf × BufList)
tls_buf_alloc_simple len_bits fresh suggested_size s =
    pop_buf len_bits fresh suggested_size s.list.items s

unfoldable pub tls_buf_alloc : ℕ → ℕ → ℕ → BufList → Option (UvBuf × BufList)
tls_buf_alloc len_bits fresh suggested_size s = tls_buf_alloc_simple len_bits fresh suggested_size s

-- A base of 0 is NULL.
unfoldable pub tls_buf_free : BufList → UvBuf → BufList
tls_buf_free s uvbuf =
    if 0 == uvbuf.base then s else record s { list = push s.list (uvbuf.base - item_size) }

unfoldable pub tls_clear_buf_freelist : BufList → BufList
tls_clear_buf_freelist s = record s {
  list = record { items = []; live = free_all s.list.items s.list.live };
}

-- The pair that goes straight to `malloc` and `free`: the buffer, and what is live.
unfoldable buf_alloc_2 : ℕ → ℕ → ℕ → List ℕ → Option (UvBuf × List ℕ)
buf_alloc_2 len_bits fresh suggested_size live =
    if leb item_size suggested_size
    then some (new_uvbuf len_bits fresh suggested_size, fresh ∷ live)
    else none

unfoldable buf_free_2 : List ℕ → UvBuf → List ℕ
buf_free_2 live uvbuf = remove (uvbuf.base - item_size) live
