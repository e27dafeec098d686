-- ===== src/TlsAlloc/Calls.antt =====
-- A thread's three free lists over any sequence of their calls.
use netsystem.Base.{
  leb, if_some, some_eq, some, ℕ, ◌+◌, ◌-◌, ◌≤◌, ◌<◌, ◌≡◌, refl, inl, inr, false, List, [], ◌∷◌,
  ◌==◌, arith, Bool-cases, count, count-cons, count-nil, remove, unit_self, unit_other, ap, sym,
  subst,
}
use netsystem.TlsAlloc.{
  FreeList, pop, push, tls_handle_alloc, tls_handle_free, tls_clear_handle_freelist, tls_req_alloc,
  tls_req_free, tls_clear_req_freelist, UvBuf, BufList, item_size, new_uvbuf, pop_buf,
  tls_buf_alloc_simple, tls_buf_alloc, tls_buf_free, tls_clear_buf_freelist,
}
use netsystem.TlsAlloc.Owned.{Owned, pop-Owned, push-Owned, count-free_all, free_all-Owned}

-- The thread, with the items of each kind that its callers hold.
pub record Thread : Type 0 where
  pub handles : FreeList
  pub reqs : FreeList
  pub bufs : BufList
  pub held_handles : List ℕ
  pub held_reqs : List ℕ
  pub held_bufs : List ℕ

-- the item of a buffer
abbrev pub item_of : UvBuf → ℕ
item_of uvbuf = uvbuf.base - item_size

-- One call. `malloc` returns an address that is not in use; a caller frees only what it holds.
pub data Step (t : Thread) : Thread → Type 0 where
  alloc_handle :
      (fresh : ℕ)
      → count fresh t.handles.live ≡ 0
      → Step t (record t {
        handles = (tls_handle_alloc fresh t.handles).1;
        held_handles = (tls_handle_alloc fresh t.handles).0 ∷ t.held_handles;
      })
  free_handle :
      (item : ℕ)
      → 0 < count item t.held_handles
      → Step t (record t {
        handles = tls_handle_free t.handles item;
        held_handles = remove item t.held_handles;
      })
  clear_handles : Step t (record t { handles = tls_clear_handle_freelist t.handles })
  alloc_req :
      (fresh : ℕ)
      → count fresh t.reqs.live ≡ 0
      → Step t (record t {
        reqs = (tls_req_alloc fresh t.reqs).1;
        held_reqs = (tls_req_alloc fresh t.reqs).0 ∷ t.held_reqs;
      })
  free_req :
      (item : ℕ)
      → 0 < count item t.held_reqs
      → Step t (record t { reqs = tls_req_free t.reqs item; held_reqs = remove item t.held_reqs })
  clear_reqs : Step t (record t { reqs = tls_clear_req_freelist t.reqs })
  alloc_buf :
      (len_bits fresh suggested_size : ℕ) {r : UvBuf × BufList}
      → count fresh t.bufs.list.live ≡ 0
      → tls_buf_alloc len_bits fresh suggested_size t.bufs ≡ some r
      → Step t (record t { bufs = r.1; held_bufs = item_of r.0 ∷ t.held_bufs })
  free_buf :
      (uvbuf : UvBuf)
      → item_size ≤ uvbuf.base
      → 0 < count (item_of uvbuf) t.held_bufs
      → Step t (record t {
        bufs = tls_buf_free t.bufs uvbuf;
        held_bufs = remove (item_of uvbuf) t.held_bufs;
      })
  clear_bufs : Step t (record t { bufs = tls_clear_buf_freelist t.bufs })

-- The calls of a thread, from its start with three empty lists.
pub data Reach (uvbuf : ℕ → UvBuf) : Thread → Type 0 where
  start : Reach uvbuf (record {
    handles = record { items = []; live = [] };
    reqs = record { items = []; live = [] };
    bufs = record { list = record { items = []; live = [] }; uvbuf = uvbuf };
    held_handles = [];
    held_reqs = [];
    held_bufs = [];
  })
  later : {s t : Thread} → Reach uvbuf s → Step s t → Reach uvbuf t

-- Each live buffer item holds a buffer that begins right behind it.
abbrev Placed : BufList → Type 0
Placed s = (x : ℕ) → 0 < count x s.list.live → (s.uvbuf x).base ≡ x + item_size

pub record IsOwned (t : Thread) : Type 0 where
  pub handles : Owned t.handles t.held_handles
  pub reqs : Owned t.reqs t.held_reqs
  pub bufs : Owned t.bufs.list t.held_bufs
  pub placed : Placed t.bufs

pop_buf-Owned :
    (len_bits fresh suggested_size : ℕ) (items : List ℕ) (s : BufList) (held : List ℕ)
    {r : UvBuf × BufList}
    → s.list.items ≡ items
    → Owned s.list held
    → Placed s
    → count fresh s.list.live ≡ 0
    → pop_buf len_bits fresh suggested_size items s ≡ some r
    → Owned r.1.list (item_of r.0 ∷ held) × Placed r.1
unfolding pop_buf new_uvbuf pop
pop_buf-Owned len_bits fresh suggested_size [] s held e own placed new done =
    subst Good (some_eq (if_some (leb item_size suggested_size) done).1) (
      subst (λ item. Owned (record { items = []; live = fresh ∷ s.list.live }) (item ∷ held))
          (sym itself)
          (pop-Owned fresh [] s.list.live held
            (subst (λ l. Owned (record { items = l; live = s.list.live }) held) e own) new),
      λ x live. elim (Bool-cases (x == fresh)) [
        | inl same ↦ rw same (ground arith)
        | inr other ↦ rw other (
            placed x
              (omega (arith, live, unit_other x fresh other, count-cons x fresh s.list.live)))
      ],
    )
  where
    Good : UvBuf × BufList → Type 0
    Good r = Owned r.1.list (item_of r.0 ∷ held) × Placed r.1

    itself : fresh + item_size - item_size ≡ fresh
    itself = omega arith
pop_buf-Owned len_bits fresh suggested_size (item ∷ items) s held e own placed new done =
    let here = own item in
    let live : 0 < count item s.list.live =
      omega (arith, here, ap (count item) e, count-cons item item items, unit_self item) in
    let itself : (s.uvbuf item).base - item_size ≡ item = omega (arith, placed item live) in
    subst (λ r. Owned r.1.list (item_of r.0 ∷ held) × Placed r.1) (some_eq done)
      (
        subst (λ i. Owned (record { items = items; live = s.list.live }) (i ∷ held)) (sym itself)
            (pop-Owned fresh (item ∷ items) s.list.live held
              (subst (λ l. Owned (record { items = l; live = s.list.live }) held) e own) new),
        placed,
      )

tls_buf_free_lem :
    (s : BufList) (uvbuf : UvBuf)
    → item_size ≤ uvbuf.base
    → tls_buf_free s uvbuf ≡ record s { list = push s.list (item_of uvbuf) }
unfolding tls_buf_free
tls_buf_free_lem s uvbuf room =
    let some_base : (0 == uvbuf.base) ≡ false = ground arith in rw some_base refl

Step-IsOwned : {s t : Thread} → Step s t → IsOwned s → IsOwned t
Step-IsOwned {s} (alloc_handle fresh new) o = record {
  handles =
      unfold tls_handle_alloc in
      pop-Owned fresh s.handles.items s.handles.live s.held_handles o.handles new;
  reqs = o.reqs;
  bufs = o.bufs;
  placed = o.placed;
}
Step-IsOwned {s} (free_handle item has) o = record {
  handles = unfold tls_handle_free in push-Owned s.handles item s.held_handles o.handles has;
  reqs = o.reqs;
  bufs = o.bufs;
  placed = o.placed;
}
Step-IsOwned {s} clear_handles o = record {
  handles = unfold tls_clear_handle_freelist in free_all-Owned s.handles s.held_handles o.handles;
  reqs = o.reqs;
  bufs = o.bufs;
  placed = o.placed;
}
Step-IsOwned {s} (alloc_req fresh new) o = record {
  handles = o.handles;
  reqs = unfold tls_req_alloc in pop-Owned fresh s.reqs.items s.reqs.live s.held_reqs o.reqs new;
  bufs = o.bufs;
  placed = o.placed;
}
Step-IsOwned {s} (free_req item has) o = record {
  handles = o.handles;
  reqs = unfold tls_req_free in push-Owned s.reqs item s.held_reqs o.reqs has;
  bufs = o.bufs;
  placed = o.placed;
}
Step-IsOwned {s} clear_reqs o = record {
  handles = o.handles;
  reqs = unfold tls_clear_req_freelist in free_all-Owned s.reqs s.held_reqs o.reqs;
  bufs = o.bufs;
  placed = o.placed;
}
Step-IsOwned {s} (alloc_buf len_bits fresh suggested_size {r} new done) o =
    let (owned, placed) =
      pop_buf-Owned len_bits fresh suggested_size s.bufs.list.items s.bufs s.held_bufs {r = r} refl
        o.bufs o.placed new (unfold tls_buf_alloc tls_buf_alloc_simple in done) in
    record { handles = o.handles; reqs = o.reqs; bufs = owned; placed = placed }
Step-IsOwned {s} (free_buf uvbuf room has) o = rw (tls_buf_free_lem s.bufs uvbuf room) (record {
  handles = o.handles;
  reqs = o.reqs;
  bufs = push-Owned s.bufs.list (item_of uvbuf) s.held_bufs o.bufs has;
  placed = o.placed;
})
Step-IsOwned {s} clear_bufs o = record {
  handles = o.handles;
  reqs = o.reqs;
  bufs = unfold tls_clear_buf_freelist in free_all-Owned s.bufs.list s.held_bufs o.bufs;
  placed =
      unfold tls_clear_buf_freelist in
      λ x live. o.placed x (
        omega (
          arith,
          live,
          count-free_all s.bufs.list.items s.bufs.list.live (λ z. omega (arith, o.bufs z)) x,
        ));
}

none-Owned : Owned (record { items = []; live = [] }) []
none-Owned x = (omega (arith, count-nil x), omega (arith, count-nil x))

-- Whatever a thread calls, as long as callers free only what they hold, `malloc` returns an address that
-- is not in use, and a new buffer has room for its item: no handle, request or buffer is with two
-- callers, or with a caller and on its free list; what `malloc` gave out and is not freed is one or the
-- other, so that nothing is lost; and each buffer begins right behind its item.
pub Reach-IsOwned : {uvbuf : ℕ → UvBuf} {t : Thread} → Reach uvbuf t → IsOwned t
Reach-IsOwned start = record {
  handles = none-Owned;
  reqs = none-Owned;
  bufs = none-Owned;
  placed = λ x live. absurd (omega (arith, live, count-nil x));
}
Reach-IsOwned (later r s) = Step-IsOwned s (Reach-IsOwned r)
