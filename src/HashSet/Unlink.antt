-- ===== src/HashSet/Unlink.antt =====
-- A node leaves a bucket and joins the free nodes: the set without its key.
use mathlib.Core.Path.{subst}
use bfe.Common.{
  ℕ, ◌≡◌, ◌≢◌, ◌<◌, ◌%◌, refl, sym, ap, ◌∙◌, Bool, true, false, not, ◌&&◌, some, List, [], ◌∷◌,
  length, get_elem?, set, length-set, arith, ◌==◌, Bool-cases, inl, inr, Bytes, bytes_eq,
  bytes_eq→eq,
}
use bfe.BytePool.{IBytePool}
use bfe.NodePool.{Link, recycle_node}
use bfe.NodePool.Chains.{All, IsChain, has_key, lt_length}
use bfe.NodePool.Partition.{
  Partition, Loose, update, Removes, Removes-All, Removes-length, Partition-heads, remove-Partition,
  push-Partition,
}
use bfe.HashSet.{HashSet}
use bfe.HashSet.Invariant.{
  IsWf, IsBucket, heads, total-update, total-update_above, has_key-Removes, DistinctKeys-Removes,
}
use bfe.HashSet.Exist.{slot, slot_lt, slot_ne}
use bfe.HashSet.Store.{bucket-set}

and_true : (a : Bool) → a ≡ (a && not false)
and_true true = refl
and_true false = refl

IsChain-All :
    (array : List Link) (link : Link) (ns : List ℕ)
    → IsChain array link ns
    → All (λ m. m < length array) ns
IsChain-All array link [] c = tt
IsChain-All array link (n ∷ ns) (e, (next, g, c)) =
    (lt_length array n next g, IsChain-All array next ns c)

module _ {P : Type 0} (pool : IBytePool P) (hash : Bytes → ℕ) (t : HashSet P) (chains : ℕ → List ℕ)
    (owner : ℕ → ℕ) (key : ℕ → Bytes) (n s : ℕ) (w : IsWf pool hash t chains owner key n s)
    (k : Bytes) (node : ℕ) (ns : List ℕ) (link : Link) (array : List Link)
    (found : bytes_eq k (key node) ≡ true)
    (r : Removes node (chains (slot pool hash t chains owner key n s w k)) ns)
    (c : IsChain array link ns)
    (frame : (j : ℕ)
      → j ≢ slot pool hash t chains owner key n s w k
      → All (λ m. get_elem? array m ≡ get_elem? t.np.array m) (chains j))
    (size : length array ≡ length t.np.array) where
  abbrev b : ℕ
  b = slot pool hash t chains owner key n s w k

  -- The set after the node has been unlinked.
  abbrev pub unlinked_set : HashSet P
  unlinked_set = record t {
    ha = set t.ha b link;
    np = recycle_node pool (record (t.np) { array = array }) node;
  }

  abbrev loose_chains : ℕ → List ℕ
  loose_chains = update chains b ns

  abbrev pub freed_chains : ℕ → List ℕ
  freed_chains = update loose_chains t.ha_size (node ∷ loose_chains t.ha_size)

  b_ne : (b == t.ha_size) ≡ false
  b_ne = let h = slot_ne pool hash t chains owner key n s w k in ground arith

  size_ne : (t.ha_size == b) ≡ false
  size_ne = let h = b_ne in ground arith

  without_node :
      Partition array (update (heads pool hash t) b link) loose_chains owner
      × Loose node loose_chains
  without_node =
      remove-Partition t.np.array array (heads pool hash t) chains owner b node link ns w.parts r c
        frame

  node_lt : node < length array
  node_lt =
      let a = IsChain-All t.np.array _ _ (w.parts.linked b) in
      let (x, _) = Removes-All (λ m. m < length t.np.array) r a in omega (arith, x, size)

  freed_heads :
      (j : ℕ)
      → heads pool hash unlinked_set j
        ≡ update (update (heads pool hash t) b link) t.ha_size (some node) j
  unfolding recycle_node
  freed_heads j =
      let l = w.ha_length in
      let h = slot_lt pool hash t chains owner key n s w k in
      let e = bucket-set t.ha b j link (omega arith) in
      elim (Bool-cases (j == t.ha_size)) [ inl f ↦ rw f refl | inr f ↦ rw (f, e) refl ]

  freed_parts :
      Partition unlinked_set.np.array
        (heads pool hash unlinked_set)
        freed_chains
        (update owner node t.ha_size)
  unfolding recycle_node
  freed_parts =
      let (p, l) = without_node in
      let u = size_ne in
      let v : (t.ha_size == t.ha_size) ≡ true = ground arith in
      let e : update (heads pool hash t) b link t.ha_size ≡ t.np.free_node = rw (u, v) refl in
      Partition-heads (set array node t.np.free_node)
        (update (update (heads pool hash t) b link) t.ha_size (some node))
        (heads pool hash unlinked_set) freed_chains (update owner node t.ha_size) freed_heads
        (subst
          (λ x.
            Partition (set array node x)
              (update (update (heads pool hash t) b link) t.ha_size (some node)) freed_chains
              (update owner node t.ha_size))
          e
          (push-Partition array (update (heads pool hash t) b link) loose_chains owner t.ha_size
            node p l node_lt))

  freed_buckets : (j : ℕ) → j ≢ t.ha_size → IsBucket pool hash unlinked_set key j (freed_chains j)
  unfolding recycle_node
  freed_buckets j h =
      let e : (j == t.ha_size) ≡ false = ground arith in
      let old = w.buckets j h in
      elim (Bool-cases (j == b)) [
        | inr f ↦ rw (e, f) (record { stored = old.stored; hashed = old.hashed; once = old.once })
        | inl f ↦
            let same : j ≡ b = ground arith in
            let here = w.buckets b (slot_ne pool hash t chains owner key n s w k) in
            let (_, stored) =
              Removes-All (λ m. pool.get t.np.pool m ≡ some (key m)) r here.stored in
            let (_, hashed) = Removes-All (λ m. hash (key m) % t.ha_size ≡ b) r here.hashed in
            rw (e, f)
              (record {
                stored = stored;
                hashed = subst (λ x. All (λ m. hash (key m) % t.ha_size ≡ x) ns) (sym same) hashed;
                once = DistinctKeys-Removes key r here.once;
              })
      ]

  pub unlinked_set-IsWf :
      IsWf pool hash unlinked_set freed_chains (update owner node t.ha_size) key n s
  unfolding recycle_node
  unlinked_set-IsWf =
      let h = slot_lt pool hash t chains owner key n s w k in
      let a = total-update t.ha_size b ns chains h in
      let o =
        total-update_above t.ha_size t.ha_size (node ∷ loose_chains t.ha_size) loose_chains
          (omega arith) in
      let u = size_ne in
      let v : (t.ha_size == t.ha_size) ≡ true = ground arith in
      let l = Removes-length r in
      let cells = w.all_nodes in
      let counted = w.counted in
      record {
        parts = freed_parts;
        ha_length = length-set t.ha b link ∙ w.ha_length;
        positive = w.positive;
        array_length = length-set array node t.np.free_node ∙ size ∙ w.array_length;
        capacity = w.capacity;
        holds = w.holds;
        buckets = freed_buckets;
        counted = omega arith;
        all_nodes = rw (v, u) (omega arith);
      }

  -- The keys that are left.
  pub unlinked_set-has_key :
      (x : Bytes)
      → has_key key x (freed_chains (hash x % t.ha_size))
        ≡ (has_key key x (chains (hash x % t.ha_size)) && not (bytes_eq x k))
  unlinked_set-has_key x =
      let j = hash x % t.ha_size in
      let ne = slot_ne pool hash t chains owner key n s w x in
      let e : (j == t.ha_size) ≡ false = ground arith in
      let k_node = bytes_eq→eq k (key node) found in
      elim (Bool-cases (j == b)) [
        | inl f ↦
            let same : j ≡ b = ground arith in
            let here = w.buckets b (slot_ne pool hash t chains owner key n s w k) in
            let left = has_key-Removes key x r here.once in
            let at_b = ap (λ y. has_key key x (chains y) && not (bytes_eq x k)) (sym same) in
            rw (e, f)
              (left ∙ ap (λ y. has_key key x (chains b) && not (bytes_eq x y)) (sym k_node) ∙ at_b)
        | inr f ↦ elim (Bool-cases (bytes_eq x k)) [
          | inl d ↦
              let eq = bytes_eq→eq x k d in absurd (ground (arith, ap (λ y. hash y % t.ha_size) eq))
          | inr d ↦ rw (e, f, d) (and_true (has_key key x (chains j)))
        ]
      ]
