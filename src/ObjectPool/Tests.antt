-- ===== src/ObjectPool/Tests.antt =====
-- The theorems about the pool at a pool of three objects.
use netsystem.Base.{ℕ, ◌+◌, ◌-◌, ◌<◌, ◌≡◌, refl, true, false, some, arith}
use netsystem.ObjectPool.{
  Pool, safe_init, new_nodes, safe_alloc, release, is_used, set_used, ids_from,
}
use netsystem.ObjectPool.Partition.{IsValid, safe_alloc_lem}
use netsystem.ObjectPool.Release.{release-safe_alloc}
use netsystem.ObjectPool.Init.{safe_init-IsValid}

abbrev three : Pool ℕ
three = safe_init ℕ (λ i. i) 600000 3

three-IsValid : IsValid ℕ three
three-IsValid = safe_init-IsValid ℕ (λ i. i) 600000 3 (omega arith)

three_unused : three.unused_size ≡ 3
unfolding safe_init
three_unused = refl

safe_alloc_lem_example :
    let (objid, p') = safe_alloc ℕ three in
    (i : ℕ) × (i < three.total_size)
    × (objid ≡ three.base_id + three.total_size - i)
    × (is_used ℕ three.all_elements i ≡ false)
    × (is_used ℕ p'.all_elements i ≡ true)
    × (p'.unused_size + 1 ≡ three.unused_size)
    × IsValid ℕ p'
safe_alloc_lem_example = safe_alloc_lem ℕ three three-IsValid (omega (arith, three_unused))

-- the same with one object handed out
abbrev one_used : Pool ℕ
one_used = (safe_alloc ℕ three).1

one_used-IsValid : IsValid ℕ one_used
one_used-IsValid =
    let (i, within, objid, before, after, left, valid) =
      safe_alloc_lem ℕ three three-IsValid (omega (arith, three_unused)) in
    valid

one_used_total : one_used.total_size ≡ 3
unfolding safe_alloc safe_init new_nodes
one_used_total = refl

one_used_at : is_used ℕ one_used.all_elements 2 ≡ true
unfolding safe_alloc safe_init new_nodes set_used is_used ids_from
one_used_at = refl

release-safe_alloc_example :
    let objid = one_used.base_id + one_used.total_size - 2 in
    (p' : Pool ℕ) × (release ℕ one_used objid ≡ some p')
    × (is_used ℕ p'.all_elements 2 ≡ false)
    × IsValid ℕ p'
    × ((safe_alloc ℕ p').0 ≡ objid)
release-safe_alloc_example =
    release-safe_alloc ℕ one_used 2 one_used-IsValid (omega (arith, one_used_total)) one_used_at
