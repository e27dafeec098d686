-- ===== src/TlsAlloc/Tests.antt =====
-- The theorems about the free lists at a concrete thread.
use netsystem.Base.{◌≡◌, refl, some, ◌==◌, if◌then◌else◌, ℕ, [], ◌∷◌, count-nil}
use netsystem.TlsAlloc.{
  new_uvbuf, pop_buf, tls_buf_alloc_simple, UvBuf, BufList, tls_handle_alloc, tls_buf_alloc,
}
use netsystem.TlsAlloc.Calls.{
  Thread, Reach, start, later, alloc_handle, alloc_buf, item_of, IsOwned, Reach-IsOwned,
}

abbrev no_bufs : ℕ → UvBuf
no_bufs item = record { base = 0; len = 0 }

abbrev empty_list : BufList
empty_list = record { list = record { items = []; live = [] }; uvbuf = no_bufs }

abbrev begun : Thread
begun = record {
  handles = record { items = []; live = [] };
  reqs = record { items = []; live = [] };
  bufs = empty_list;
  held_handles = [];
  held_reqs = [];
  held_bufs = [];
}

-- one handle and one buffer taken
abbrev taken : Thread
taken = record begun {
  handles = (tls_handle_alloc 100 begun.handles).1;
  held_handles = (tls_handle_alloc 100 begun.handles).0 ∷ [];
}

abbrev one_buf : UvBuf × BufList
one_buf =
    let new = new_uvbuf 64 5000 4096 in
    (
      new,
      record {
        list = record { items = []; live = 5000 ∷ [] };
        uvbuf = λ item. if item == 5000 then new else no_bufs item;
      },
    )

abbrev buffered : Thread
buffered = record taken { bufs = one_buf.1; held_bufs = item_of one_buf.0 ∷ [] }

got_buf : tls_buf_alloc 64 5000 4096 taken.bufs ≡ some one_buf
unfolding tls_buf_alloc tls_buf_alloc_simple pop_buf
got_buf = refl

buffered-Reach : Reach no_bufs buffered
buffered-Reach =
    later (later start (alloc_handle 100 (count-nil 100)))
      (alloc_buf 64 5000 4096 (count-nil 5000) got_buf)

Reach-IsOwned_example : IsOwned buffered
Reach-IsOwned_example = Reach-IsOwned buffered-Reach
