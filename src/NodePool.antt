-- ===== src/NodePool.antt =====
-- bfe_util/hash_set/node_pool.go: lists of nodes in one array, with the free nodes as a list of their
-- own. An index is an int32, so that a pool is taken to have fewer than 2 ^ 31 nodes; none is -1. A
-- read out of range, and a list that does not end within as many nodes as there are, is a fault.
pub mod Chains
pub mod Partition
pub mod Delete
use bfe.Common.{
  ℕ, suc, zero, ◌+◌, ◌-◌, ◌≡◌, Bool, true, false, Option, none, some, List, [], ◌∷◌, if◌then◌else◌,
  leb, length, get_elem?, set, Bytes, bytes_eq,
}
use bfe.BytePool.{IBytePool}

abbrev pub Link : Type 0
Link = Option ℕ

pub data SetError : Type 0 where
  not_positive set_full no_more_node key_too_long : SetError

pub data Run {ℓ} (A : Type ℓ) : Type ℓ where
  ok : A → Run A
  err : SetError → Run A
  fault : Run A

infixl 5 ◌>>=◌
abbrev pub ◌>>=◌ {ℓ κ} : {A : Type ℓ} {B : Type κ} → Run A → (A → Run B) → Run B
ok a >>= f = f a
err e >>= f = err e
fault >>= f = fault

abbrev pub of_option {ℓ} : {A : Type ℓ} → Option A → Run A
of_option none = fault
of_option (some a) = ok a

pub record NodePool (P : Type 0) : Type 0 where
  pub array : List Link
  pub free_node : Link
  pub capacity : ℕ
  pub elem_num : ℕ
  pub pool : P

-- The nodes from i on, each linked to the next.
unfoldable pub linked_from : ℕ → ℕ → List Link
linked_from i zero = []
linked_from i (suc zero) = none ∷ []
linked_from i (suc (suc n)) = some (i + 1) ∷ linked_from (i + 1) (suc n)

module _ {P : Type 0} (pool : IBytePool P) where
  -- elemNum is positive.
  unfoldable pub new_node_pool : ℕ → ℕ → NodePool P
  unfolding linked_from
  new_node_pool elem_num elem_size = record {
    array = linked_from 0 elem_num;
    free_node = some 0;
    capacity = elem_num;
    elem_num = 0;
    pool = pool.new elem_num elem_size;
  }

  unfoldable pub element : NodePool P → ℕ → Run Bytes
  element np i = of_option (pool.get np.pool i)

  unfoldable pub get_free_node : NodePool P → Run (ℕ × NodePool P)
  get_free_node np = elim np.free_node [
    | none ↦ err no_more_node
    | some node ↦ of_option (get_elem? np.array node) >>= λ next.
        ok (node, record np { free_node = next; array = set np.array node none })
  ]

  unfoldable pub add : NodePool P → Link → Bytes → Run (Link × NodePool P)
  unfolding get_free_node
  add np head key = get_free_node np >>= λ r. ok (
    some r.0,
    record (r.1) {
      array = set r.1.array r.0 head;
      pool = (pool.set r.1.pool r.0 key).0;
      elem_num = r.1.elem_num + 1;
    },
  )

  -- The node is in use, so that the number of elements is positive.
  unfoldable pub recycle_node : NodePool P → ℕ → NodePool P
  recycle_node np node = record np {
    free_node = some node;
    array = set np.array node np.free_node;
    elem_num = np.elem_num - 1;
  }

  -- The loop of `del` behind the node pindex.
  unfoldable pub del_loop : ℕ → NodePool P → ℕ → Bytes → Run (NodePool P)
  unfolding element recycle_node
  del_loop zero np pindex key = fault
  del_loop (suc fuel) np pindex key = of_option (get_elem? np.array pindex) >>= λ link. elim link [
    | none ↦ ok np
    | some index ↦
        let rest = del_loop fuel np index key in
        element np index >>= λ e.
        if bytes_eq key e
        then (of_option (get_elem? np.array index) >>= λ next.
            ok (recycle_node (record np { array = set np.array pindex next }) index))
        else rest
  ]

  unfoldable pub del : NodePool P → ℕ → Bytes → Run (Link × NodePool P)
  unfolding del_loop
  del np head key = element np head >>= λ e.
      if bytes_eq key e
      then (of_option (get_elem? np.array head) >>= λ next. ok (next, recycle_node np head))
      else (del_loop (np.capacity + 1) np head key >>= λ np'. ok (some head, np'))

  unfoldable pub exist_loop : ℕ → NodePool P → Link → Bytes → Run Bool
  unfolding element
  exist_loop zero np link key = fault
  exist_loop (suc fuel) np none key = ok false
  exist_loop (suc fuel) np (some index) key =
      let rest = of_option (get_elem? np.array index) >>= λ next. exist_loop fuel np next key in
      element np index >>= λ e. if bytes_eq key e then ok true else rest

  unfoldable pub exist : NodePool P → Link → Bytes → Run Bool
  unfolding exist_loop
  exist np head key = exist_loop (np.capacity + 1) np head key

  unfoldable pub full : NodePool P → Bool
  full np = leb np.capacity np.elem_num

  unfoldable pub validate_key : NodePool P → Bytes → Bool
  validate_key np key = leb (length key) (pool.max_elem_size np.pool)
