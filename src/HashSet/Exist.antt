-- ===== src/HashSet/Exist.antt =====
-- Looking a key up: `exist` ends and answers whether a node of the key's list has it.
use native.Mathlib.Nat.{mod-lt}
use bfe.Common.{
  ℕ, suc, zero, ◌≡◌, ◌≢◌, ◌<◌, ◌+◌, ◌%◌, refl, false, ◌&&◌, some, List, [], ◌∷◌, length, get_elem?,
  arith, ◌==◌, leb, Bool-cases, inl, inr, Bytes,
}
use bfe.BytePool.{IBytePool}
use bfe.NodePool
use bfe.NodePool.{Link, Run, ok, validate_key, of_option, ◌>>=◌}
use bfe.NodePool.Chains.{IsChain, has_key, exist_loop-has_key}
use bfe.HashSet.{HashSet, exist}
use bfe.HashSet.Invariant.{IsWf, bucket, le-total}

get_elem?-bucket : (ha : List Link) (b : ℕ) → b < length ha → get_elem? ha b ≡ some (bucket ha b)
get_elem?-bucket [] b h = absurd (omega arith)
get_elem?-bucket (x ∷ ha) zero h = refl
get_elem?-bucket (x ∷ ha) (suc b) h = get_elem?-bucket ha b (omega arith)

module _ {P : Type 0} (pool : IBytePool P) (hash : Bytes → ℕ) (t : HashSet P) (chains : ℕ → List ℕ)
    (owner : ℕ → ℕ) (key : ℕ → Bytes) (n s : ℕ) (w : IsWf pool hash t chains owner key n s)
    (k : Bytes) where
  -- The list that the key belongs to.
  abbrev pub slot : ℕ
  slot = hash k % t.ha_size

  pub slot_lt : slot < t.ha_size
  slot_lt = let h = w.positive in mod-lt (hash k) h

  pub slot_ne : slot ≢ t.ha_size
  slot_ne = let h = slot_lt in λ e. omega (arith, h, e)

  pub at_slot : get_elem? t.ha slot ≡ some (bucket t.ha slot)
  at_slot = let l = w.ha_length in get_elem?-bucket t.ha slot (omega (arith, slot_lt))

  pub slot-IsChain : IsChain t.np.array (bucket t.ha slot) (chains slot)
  slot-IsChain =
      let c = w.parts.linked slot in
      let e : (slot == t.ha_size) ≡ false = let ne = slot_ne in ground arith in rw e at c

  pub slot_short : length (chains slot) < t.np.capacity + 1
  slot_short =
      let h = le-total t.ha_size slot chains slot_lt in
      let c = w.counted in let a = w.all_nodes in let p = w.capacity in omega arith

  pub node_exist : NodePool.exist pool t.np (bucket t.ha slot) k ≡ ok (has_key key k (chains slot))
  unfolding NodePool.exist
  node_exist =
      exist_loop-has_key pool (t.np.capacity + 1) t.np (bucket t.ha slot) (chains slot) key k
        slot_short slot-IsChain (w.buckets slot slot_ne).stored

  pub validate : validate_key pool t.np k ≡ leb (length k) s
  unfolding validate_key
  validate = let e = pool.size_lem t.np.pool n s w.holds in rw e refl

  pub exist-has_key : exist pool hash t k ≡ ok (leb (length k) s && has_key key k (chains slot))
  unfolding exist
  exist-has_key =
      rw (validate, at_slot, node_exist)
        (elim (Bool-cases (leb (length k) s)) [ inl e ↦ rw e refl | inr e ↦ rw e refl ])
