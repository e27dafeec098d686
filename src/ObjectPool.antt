-- ===== src/ObjectPool.antt =====
-- src/base/ObjectPool.hpp: a pool of `size` objects, with a stack of the ids that are not in use. An
-- object is known outside by its object id. An assertion that fails is `none`.
pub mod Elements
pub mod Partition
pub mod Release
pub mod Init
mod Tests
use netsystem.Base.{
  ℕ, zero, suc, ◌+◌, ◌-◌, ◌%◌, ◌^◌, Bool, true, false, ◌&&◌, Option, none, some, List, [], ◌∷◌,
  length, get_or, set, replicate, leb, ltb, ◌==◌, if◌then◌else◌, sub_u32,
}

module _ (T : Type 0) where
  pub record Node : Type 0 where
    pub node_data : T
    pub used : Bool

  pub record Pool : Type 0 where
    pub base_id : ℕ
    pub total_size : ℕ
    pub all_elements : List Node
    pub unused_ids : List ℕ
    pub unused_size : ℕ

  -- `ConvertId`, from an id to an object id and back
  unfoldable pub convert_id : ℕ → ℕ → ℕ → ℕ
  convert_id base_id total_size id = sub_u32 ((1 + base_id + total_size) % 2 ^ 32) id

  -- the ids from `i + 1` on
  unfoldable pub ids_from : ℕ → ℕ → List ℕ
  ids_from i zero = []
  ids_from i (suc size) = suc i ∷ ids_from (suc i) size

  -- The new array from element `i` on. `new` leaves the data of an element as the memory was, `fresh`.
  unfoldable pub new_nodes : (fresh : ℕ → T) → ℕ → ℕ → List Node
  new_nodes fresh i zero = []
  new_nodes fresh i (suc n) =
      record { node_data = fresh i; used = false } ∷ new_nodes fresh (suc i) n

  unfoldable pub safe_init : (fresh : ℕ → T) → ℕ → ℕ → Pool
  safe_init fresh base_id size = record {
    base_id = base_id;
    total_size = size;
    all_elements = new_nodes fresh 0 size;
    unused_ids = ids_from 0 size;
    unused_size = size;
  }

  -- `_all_elements[i]._used = used`
  unfoldable pub set_used : List Node → ℕ → Bool → List Node
  set_used [] i b = []
  set_used (node ∷ nodes) zero b = record node { used = b } ∷ nodes
  set_used (node ∷ nodes) (suc i) b = node ∷ set_used nodes i b

  unfoldable pub is_used : List Node → ℕ → Bool
  is_used [] i = false
  is_used (node ∷ nodes) zero = node.used
  is_used (node ∷ nodes) (suc i) = is_used nodes i

  -- `SafeAlloc()`: the object id, 0 if all are in use.
  unfoldable pub safe_alloc : Pool → ℕ × Pool
  safe_alloc p =
      if 0 == p.unused_size
      then (0, p)
      else (let id = get_or p.unused_ids (p.unused_size - 1) 0 in
          (
            convert_id p.base_id p.total_size id,
            record p {
              unused_size = p.unused_size - 1;
              all_elements = set_used p.all_elements (id - 1) true;
            },
          ))

  -- `ReleaseInternal`, with its assertions; a write behind the end of the stack is `none` too.
  unfoldable pub release : Pool → ℕ → Option Pool
  release p objid =
      let id = convert_id p.base_id p.total_size objid in
      if leb 1 id
        && leb id p.total_size
        && is_used p.all_elements (id - 1)
        && ltb p.unused_size (length p.unused_ids)
      then some (record p {
        all_elements = set_used p.all_elements (id - 1) false;
        unused_size = p.unused_size + 1;
        unused_ids = set p.unused_ids p.unused_size id;
      })
      else none

  unfoldable pub get_object_num : Pool → ℕ
  get_object_num p = p.total_size - p.unused_size

  -- The loop of `SafeAlloc(objid)`: where the id stands among the first `n` of the stack.
  unfoldable pub find_unused : List ℕ → ℕ → ℕ → Option ℕ
  find_unused ids zero id = none
  find_unused [] (suc n) id = none
  find_unused (x ∷ ids) (suc n) id =
      let rest = find_unused ids n id in
      if id == x then some 0 else elim rest [ none ↦ none | some i ↦ some (suc i) ]

  -- `SafeAlloc(objid)`: the tail of the stack takes the place of the id.
  unfoldable pub safe_alloc_objid : Pool → ℕ → Option (ℕ × Pool)
  safe_alloc_objid p objid =
      let id = convert_id p.base_id p.total_size objid in
      if leb 1 id && leb id p.total_size
      then some (elim (find_unused p.unused_ids p.unused_size id) [
        | none ↦ (0, p)
        | some i ↦ (
          objid,
          record p {
            unused_ids = set p.unused_ids i (get_or p.unused_ids (p.unused_size - 1) 0);
            unused_size = p.unused_size - 1;
            all_elements = set_used p.all_elements (id - 1) true;
          },
        )
      ])
      else none

  pub get_objid_by_index : Pool → ℕ → Option ℕ
  get_objid_by_index p index =
      if ltb index p.total_size then some (convert_id p.base_id p.total_size (index + 1)) else none

  -- `Get`: the index of the element, which is outside the array for an id of 0
  unfoldable pub get : Pool → ℕ → Option ℕ
  get p objid =
      let id = convert_id p.base_id p.total_size objid in
      if leb 1 id && leb id p.total_size then some (id - 1) else none
