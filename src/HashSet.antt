-- ===== src/HashSet.antt =====
-- bfe_util/hash_set/hash_set.go: a set of keys, as an array of lists in a node pool. The hash function
-- is an argument; so is the pool of bytes, which NewHashSet chooses by isFixKeyLen.
pub mod Invariant
pub mod Exist
pub mod Store
pub mod Add
pub mod Unlink
pub mod Remove
pub mod Keys
pub mod Refine
pub mod Start
pub mod Runs
pub mod Examples
use bfe.Common.{
  ℕ, suc, zero, ◌+◌, ◌*◌, ◌%◌, Bool, true, false, not, ◌||◌, Option, none, some, List, [], ◌∷◌,
  if◌then◌else◌, leb, ◌==◌, length, get_elem?, set, replicate, Bytes,
}
use bfe.BytePool.{IBytePool}
use bfe.NodePool
use bfe.NodePool.{
  Link, NodePool, Run, ok, err, fault, ◌>>=◌, of_option, set_full, key_too_long, not_positive,
  new_node_pool, validate_key,
}

abbrev pub load_factor : ℕ
load_factor = 5

pub record HashSet (P : Type 0) : Type 0 where
  pub ha : List Link
  pub ha_size : ℕ
  pub np : NodePool P

unfoldable pub new_hash_array : ℕ → List Link
new_hash_array index_size = replicate index_size none

module _ {P : Type 0} (pool : IBytePool P) (hash : Bytes → ℕ) where
  unfoldable pub new_hash_set : ℕ → ℕ → Run (HashSet P)
  unfolding new_hash_array new_node_pool
  new_hash_set elem_num elem_size =
      if elem_num == 0 || elem_size == 0
      then err not_positive
      else ok (record {
        ha = new_hash_array (elem_num * load_factor);
        ha_size = elem_num * load_factor;
        np = new_node_pool pool elem_num elem_size;
      })

  unfoldable pub is_full : HashSet P → Bool
  unfolding NodePool.full
  is_full t = NodePool.full pool t.np

  unfoldable pub add : HashSet P → Bytes → Run (HashSet P)
  unfolding is_full validate_key NodePool.exist NodePool.add
  add t key =
      if is_full t
      then err set_full
      else if not (validate_key pool t.np key)
      then err key_too_long
      else (let hash_num = hash key % t.ha_size in
          of_option (get_elem? t.ha hash_num) >>= λ head.
          NodePool.exist pool t.np head key >>= λ found.
          if found
          then ok t
          else (NodePool.add pool t.np head key >>= λ r.
              ok (record t { ha = set t.ha hash_num r.0; np = r.1 })))

  unfoldable pub remove : HashSet P → Bytes → Run (HashSet P)
  unfolding validate_key NodePool.del
  remove t key =
      if not (validate_key pool t.np key)
      then err key_too_long
      else (let hash_num = hash key % t.ha_size in
          of_option (get_elem? t.ha hash_num) >>= λ head. elim head [
            | none ↦ ok t
            | some node ↦ NodePool.del pool t.np node key >>= λ r.
                ok (record t { ha = set t.ha hash_num r.0; np = r.1 })
          ])

  unfoldable pub exist : HashSet P → Bytes → Run Bool
  unfolding validate_key NodePool.exist
  exist t key =
      if not (validate_key pool t.np key)
      then ok false
      else (of_option (get_elem? t.ha (hash key % t.ha_size)) >>= λ head.
          NodePool.exist pool t.np head key)

  unfoldable pub len : HashSet P → ℕ
  len t = t.np.elem_num
