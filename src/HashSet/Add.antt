-- ===== src/HashSet/Add.antt =====
-- Adding a new key to a set that is not full: a free node moves to the key's list.
use mathlib.Core.Path.{subst}
use bfe.Common.{
  ℕ, suc, zero, ◌≡◌, ◌≢◌, ◌<◌, ◌+◌, ◌%◌, refl, sym, ap, ◌∙◌, true, false, ◌||◌, none, some, List,
  [], ◌∷◌, length, get_elem?, set, length-set, arith, ◌==◌, leb, Bool-cases, inl, inr, Bytes,
  bytes_eq, bytes_eq→eq,
}
use bfe.BytePool.{IBytePool}
use bfe.NodePool.{Link, ok}
use bfe.NodePool.Chains.{IsChain, Avoids, has_key, IsChain-set, lt_length}
use bfe.NodePool.Partition.{
  Partition, Loose, update, here, owner-Avoids, set-frame, Partition-heads, remove-Partition,
  push-Partition,
}
use bfe.HashSet.{HashSet, add, is_full}
use bfe.HashSet.Invariant.{
  IsWf, IsBucket, heads, bucket, total-update, total-update_above, has_key-update,
  DistinctKeys-update,
}
use bfe.HashSet.Exist.{slot, slot_lt, slot_ne, at_slot, node_exist, validate}
use bfe.HashSet.Store.{Stored-set, hashed-update, bucket-set}

set_set : (array : List Link) (i : ℕ) (u v : Link) → set (set array i u) i v ≡ set array i v
set_set [] i u v = refl
set_set (x ∷ xs) zero u v = refl
set_set (x ∷ xs) (suc i) u v = ap (λ t. x ∷ t) (set_set xs i u v)

module _ {P : Type 0} (pool : IBytePool P) (hash : Bytes → ℕ) (t : HashSet P) (chains : ℕ → List ℕ)
    (owner : ℕ → ℕ) (key : ℕ → Bytes) (n s : ℕ) (w : IsWf pool hash t chains owner key n s)
    (k : Bytes) (node : ℕ) (ns : List ℕ) (free : chains t.ha_size ≡ node ∷ ns) (next : Link)
    (g : get_elem? t.np.array node ≡ some next) (c : IsChain t.np.array next ns) where
  abbrev pub b : ℕ
  b = slot pool hash t chains owner key n s w k

  -- The set after the key has been added.
  abbrev pub added : HashSet P
  added = record t {
    ha = set t.ha b (some node);
    np = record (t.np) {
      free_node = next;
      array = set (set t.np.array node none) node (bucket t.ha b);
      pool = (pool.set t.np.pool node k).0;
      elem_num = t.np.elem_num + 1;
    };
  }

  abbrev pub new_key : ℕ → Bytes
  new_key = update key node k

  abbrev pub loose_chains : ℕ → List ℕ
  loose_chains = update chains t.ha_size ns

  abbrev pub new_chains : ℕ → List ℕ
  new_chains = update loose_chains b (node ∷ loose_chains b)

  b_ne : (b == t.ha_size) ≡ false
  b_ne = let h = slot_ne pool hash t chains owner key n s w k in ground arith

  loose_b : loose_chains b ≡ chains b
  loose_b = let e = b_ne in rw e refl

  without_node :
      Partition
        (set t.np.array node none)
        (update (heads pool hash t) t.ha_size next)
        loose_chains
        owner
      × Loose node loose_chains
  without_node =
      remove-Partition t.np.array (set t.np.array node none) (heads pool hash t) chains owner
        t.ha_size node next ns w.parts (rw free here)
        (IsChain-set t.np.array next ns node none avoids c)
        (λ j h. set-frame t.np.array node none (chains j) (others j h))
    where
      avoids : Avoids node ns
      avoids = let d = w.parts.distinct t.ha_size in (rw free at d).0

      owned : owner node ≡ t.ha_size
      owned = let d = w.parts.owned t.ha_size in (rw free at d).0

      others : (j : ℕ) → j ≢ t.ha_size → Avoids node (chains j)
      others j h = owner-Avoids owner node j (chains j) (λ e. h (sym e ∙ owned)) (w.parts.owned j)

  node_lt : node < length (set t.np.array node none)
  node_lt =
      let l = lt_length t.np.array node next g in omega (arith, length-set t.np.array node none)

  added-heads :
      (j : ℕ)
      → heads pool hash added j ≡ update (update (heads pool hash t) t.ha_size next) b (some node) j
  added-heads j =
      let l = w.ha_length in
      let h = slot_lt pool hash t chains owner key n s w k in
      let e = bucket-set t.ha b j (some node) (omega arith) in
      let u = b_ne in
      elim (Bool-cases (j == t.ha_size)) [
        | inl f ↦ let v : (j == b) ≡ false = ground arith in rw (f, v) refl
        | inr f ↦ rw (f, e) refl
      ]

  added_parts : Partition added.np.array (heads pool hash added) new_chains (update owner node b)
  added_parts =
      let (p, l) = without_node in
      let u = b_ne in
      let e : update (heads pool hash t) t.ha_size next b ≡ bucket t.ha b = rw u refl in
      Partition-heads _ _ (heads pool hash added) new_chains _ added-heads (
        subst
          (λ x.
            Partition (set (set t.np.array node none) node x)
              (update (update (heads pool hash t) t.ha_size next) b (some node)) new_chains
              (update owner node b))
          e
          (push-Partition (set t.np.array node none) (update (heads pool hash t) t.ha_size next)
            loose_chains owner b node p l node_lt))

  -- The nodes of a bucket that were there before.
  old_nodes : (j : ℕ) → j ≢ t.ha_size → IsBucket pool hash added new_key j (chains j)
  old_nodes j h =
      let (_, l) = without_node in
      let old = w.buckets j h in
      let e : (j == t.ha_size) ≡ false = ground arith in
      let a : Avoids node (chains j) = rw e at (l j) in
      record {
        stored = Stored-set pool t.np.pool n s node key k (chains j) w.holds a old.stored;
        hashed = hashed-update hash t.ha_size j node key k (chains j) a old.hashed;
        once = DistinctKeys-update key node k (chains j) a old.once;
      }

  new_key_self : new_key node ≡ k
  new_key_self = let e : (node == node) ≡ true = ground arith in rw e refl

  has_new_key :
      (x : Bytes) (j : ℕ) → j ≢ t.ha_size → has_key new_key x (chains j) ≡ has_key key x (chains j)
  has_new_key x j h =
      let (_, l) = without_node in
      let e : (j == t.ha_size) ≡ false = ground arith in
      has_key-update key node k x (chains j) (rw e at (l j))

  module _ (takes : pool.takes s k ≡ true) (fresh : has_key key k (chains b) ≡ false) where
    added_buckets : (j : ℕ) → j ≢ t.ha_size → IsBucket pool hash added new_key j (new_chains j)
    added_buckets j h =
        let u = b_ne in
        let e : (j == t.ha_size) ≡ false = ground arith in
        elim (Bool-cases (j == b)) [
          | inr f ↦ rw (f, e) (old_nodes j h)
          | inl f ↦
              let same : j ≡ b = ground arith in
              let old = old_nodes j h in
              let i = w.array_length in
              let l = lt_length t.np.array node next g in
              let self = new_key_self in
              let unknown : has_key new_key k (chains j) ≡ false =
                has_new_key k j h ∙ (rw same fresh) in
              rw (f, u)
                (subst (λ x. IsBucket pool hash added new_key j (node ∷ chains x)) same
                  (record {
                    stored = (
                      rw self (pool.get-set_self t.np.pool n s node k w.holds (omega arith) takes),
                      old.stored,
                    );
                    hashed = (rw self (sym same), old.hashed);
                    once = (rw self unknown, old.once);
                  }))
        ]

    pub added-IsWf : IsWf pool hash added new_chains (update owner node b) new_key n s
    added-IsWf =
        let h = slot_lt pool hash t chains owner key n s w k in
        let a = total-update t.ha_size b (node ∷ loose_chains b) loose_chains h in
        let o = total-update_above t.ha_size t.ha_size ns chains (omega arith) in
        let u : (t.ha_size == b) ≡ false = let e = b_ne in ground arith in
        let v : (t.ha_size == t.ha_size) ≡ true = ground arith in
        let l : length (chains t.ha_size) ≡ suc (length ns) = ap length free in
        let cells = w.all_nodes in
        let counted = w.counted in
        record {
          parts = added_parts;
          ha_length = length-set t.ha b (some node) ∙ w.ha_length;
          positive = w.positive;
          array_length =
              length-set (set t.np.array node none) node (bucket t.ha b)
              ∙ length-set t.np.array node none
              ∙ w.array_length;
          capacity = w.capacity;
          holds = pool.set_holds t.np.pool n s node k w.holds;
          buckets = added_buckets;
          counted = omega arith;
          all_nodes = rw (u, v) (omega arith);
        }

    -- The keys of the new set.
    pub added-has_key :
        (x : Bytes)
        → has_key new_key x (new_chains (hash x % t.ha_size))
          ≡ (bytes_eq x k || has_key key x (chains (hash x % t.ha_size)))
    added-has_key x =
        let j = hash x % t.ha_size in
        let u = b_ne in
        let ne = slot_ne pool hash t chains owner key n s w x in
        let e : (j == t.ha_size) ≡ false = ground arith in
        let same = has_new_key x j ne in
        let self = new_key_self in
        elim (Bool-cases (j == b)) [
          | inl f ↦
              let eq : j ≡ b = ground arith in
              let there = has_new_key x b (slot_ne pool hash t chains owner key n s w k) in
              let at_b = ap (λ y. has_key key x (chains y)) (sym eq) in
              rw (f, u, self) (ap (λ z. bytes_eq x k || z) (there ∙ at_b))
          | inr f ↦ elim (Bool-cases (bytes_eq x k)) [
            | inr d ↦ rw (f, e, same, d) refl
            | inl d ↦
                let eq = bytes_eq→eq x k d in
                absurd (ground (arith, ap (λ y. hash y % t.ha_size) eq))
          ]
        ]

    pub add-added :
        is_full pool hash t ≡ false
        → leb (length k) s ≡ true
        → t.np.free_node ≡ some node
        → add pool hash t k ≡ ok added
    unfolding add
    add-added f v e =
        rw
          (
            f,
            validate pool hash t chains owner key n s w k,
            v,
            at_slot pool hash t chains owner key n s w k,
            node_exist pool hash t chains owner key n s w k,
            fresh,
            e,
            g,
          )
          refl
