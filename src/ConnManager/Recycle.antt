-- ===== src/ConnManager/Recycle.antt =====
-- What `Recycle` deletes, and what it leaves in the recycler.
use netsystem.Base.{
  not, ◌&&◌, ◌||◌, ◌∙◌, ℕ, ◌+◌, ◌<◌, ◌≡◌, refl, ap, inl, inr, ◌↔◌, Bool, true, false, List, [], ◌∷◌,
  ◌++◌, ◌==◌, ltb, if◌then◌else◌, arith, Bool-cases, count, count-cons, count-nil, count-snoc, unit,
  unit_same, unit_other, ==_iff, length,
}
use netsystem.ConnManager.{
  Conn, Call, delete, Manager, is_safe, sort_out, recycler_pop, delete_all, safe_release, recycle,
}
use netsystem.ConnManager.Owned.{deletes, held, clients, IsTracked}

-- A connection in the recycler counts if it is safe to release, or if it is not.
abbrev when_safe : (ℕ → Conn) → ℕ → ℕ → ℕ
when_safe conn p n = if is_safe (conn p) then n else 0

abbrev when_busy : (ℕ → Conn) → ℕ → ℕ → ℕ
when_busy conn p n = if is_safe (conn p) then 0 else n

-- an entry of the recycler that is `p` or another connection
same_conn : (conn : ℕ → Conn) (p c : ℕ) → (p == c) ≡ true → is_safe (conn p) ≡ is_safe (conn c)
same_conn conn p c e = ap (λ x. is_safe (conn x)) ((==_iff p c).0 e)

count-sort_out :
    (conn : ℕ → Conn) (p : ℕ) (recycler safe : List ℕ)
    → (count p (sort_out conn recycler safe).0 ≡ when_busy conn p (count p recycler))
      × (count p (sort_out conn recycler safe).1
          ≡ count p safe + when_safe conn p (count p recycler))
unfolding sort_out
count-sort_out conn p [] safe = ground (arith, count-nil p)
count-sort_out conn p (c ∷ recycler) safe =
    let (kept, same) = count-sort_out conn p recycler safe in
    let (kept', moved) = count-sort_out conn p recycler (safe ++ (c ∷ [])) in
    let snoc = count-snoc p c safe in
    let cons = count-cons p c recycler in
    elim (Bool-cases (p == c)) [
      | inl here ↦
          let one = unit_same p c here in
          let alike = same_conn conn p c here in
          elim (Bool-cases (is_safe (conn c))) [
            | inl ok ↦ ground (arith, count-cons p c (sort_out conn recycler safe).0)
            | inr busy ↦ ground (arith, count-cons p c (sort_out conn recycler safe).0)
          ]
      | inr other ↦
          let none_here = unit_other p c other in
          ground (arith, count-cons p c (sort_out conn recycler safe).0)
    ]

-- A null pointer is not deleted, and it is not the address of `p`.
deletes-delete :
    (p c : ℕ) (calls : List Call)
    → 0 < p
    → deletes p (if 0 == c then calls else delete c ∷ calls) ≡ unit p c + deletes p calls
unfolding deletes
deletes-delete p c calls pos = elim (Bool-cases (0 == c)) [
  | inl null ↦ let apart = unit_other p c (ground arith) in rw null (omega (arith, apart))
  | inr there ↦ rw there refl
]

deletes-delete_all :
    (p : ℕ) (safe : List ℕ) (calls : List Call)
    → 0 < p
    → deletes p (delete_all safe calls) ≡ count p safe + deletes p calls
unfolding delete_all
deletes-delete_all p [] calls pos = omega (arith, count-nil p)
deletes-delete_all p (c ∷ safe) calls pos = omega (
  arith,
  deletes-delete_all p safe (if 0 == c then calls else delete c ∷ calls) pos,
  deletes-delete p c calls pos,
  count-cons p c safe,
)

length-zero : (xs : List ℕ) → (ltb 0 (length xs) ≡ false) ↔ (xs ≡ [])
length-zero [] = (λ _. refl, λ _. refl)
length-zero (x ∷ xs) = (λ e. absurd (ground arith), λ e. cc)

-- Some thread may still use the connection: it is connected, has requests on their way in one of the
-- two directions, is not disposed, or its stream is not flushed.
abbrev pub has_work : Conn → Bool
has_work c =
    c.is_connected
    || not c.is_back_end_clean
    || not c.is_front_end_clean
    || not c.is_disposed
    || not c.is_flushed

is_safe_lem : (c : Conn) (n k : ℕ) → (if is_safe c then n else k) ≡ (if has_work c then k else n)
unfolding is_safe
is_safe_lem c n k =
    five c.is_connected c.is_back_end_clean c.is_front_end_clean c.is_disposed c.is_flushed
  where
    five :
        (a b c d e : Bool)
        → (if not a && b && c && d && e then n else k)
          ≡ (if a || not b || not c || not d || not e then k else n)
    five true b c d e = refl
    five false false c d e = refl
    five false true false d e = refl
    five false true true false e = refl
    five false true true true false = refl
    five false true true true true = refl

-- `Recycle` deletes the connections of the recycler that no thread uses any more by then, each as often
-- as the recycler held it, and those set aside before, and no other. The rest stays in the recycler,
-- nothing is left set aside, and the answer is false exactly if the recycler is empty after it.
pub recycle_lem :
    (conn : ℕ → Conn) (m : Manager) (p : ℕ)
    → 0 < p
    → let (more, m') = recycle conn m in
      (count p m'.recycler ≡ (if has_work (conn p) then count p m.recycler else 0))
      × (deletes p m'.calls
          ≡ deletes p m.calls
            + count p m.safe_to_release
            + (if has_work (conn p) then 0 else count p m.recycler))
      × (m'.safe_to_release ≡ [])
      × ((more ≡ false) ↔ (m'.recycler ≡ []))
unfolding recycle safe_release recycler_pop
recycle_lem conn m p pos =
    let (kept, moved) = count-sort_out conn p m.recycler m.safe_to_release in
    let (recycler, safe) = sort_out conn m.recycler m.safe_to_release in
    let here = count p m.recycler in
    (
      kept ∙ is_safe_lem (conn p) 0 here,
      omega (arith, moved, deletes-delete_all p safe m.calls pos, is_safe_lem (conn p) here 0),
      refl,
      length-zero recycler,
    )

one_side : (b : Bool) (n : ℕ) → (if b then 0 else n) + (if b then n else 0) ≡ n
one_side true n = omega arith
one_side false n = omega arith

pub recycle-IsTracked :
    {added : List ℕ} {m : Manager} (conn : ℕ → Conn)
    → IsTracked added m
    → IsTracked added (recycle conn m).1
unfolding recycle safe_release recycler_pop held clients
recycle-IsTracked {added} {m} conn o = record {
  conserved = λ p pos.
      let (kept, moved) = count-sort_out conn p m.recycler m.safe_to_release in
      omega (
        arith,
        o.conserved p pos,
        kept,
        moved,
        one_side (is_safe (conn p)) (count p m.recycler),
        deletes-delete_all p (sort_out conn m.recycler m.safe_to_release).1 m.calls pos,
        count-nil p,
      );
  counted = o.counted;
}
