-- ===== src/HashSet/Start.antt =====
-- The set that NewHashSet makes: all nodes are free, one linked to the next.
use native.Mathlib.Nat.{mod-lt}
use bfe.Common.{
  ℕ, suc, zero, ◌≡◌, ◌<◌, ◌+◌, ◌-◌, ◌*◌, ◌%◌, refl, ap, ◌∙◌, true, false, none, some, List, [], ◌∷◌,
  length, get_elem?, replicate, length-replicate, arith, ◌==◌, Bool-cases, inl, inr, Bytes,
}
use bfe.BytePool.{IBytePool}
use bfe.NodePool.{Link, linked_from, new_node_pool}
use bfe.NodePool.Chains.{All, IsChain, Avoids, Distinct}
use bfe.NodePool.Partition.{Partition, update}
use bfe.HashSet.{HashSet, new_hash_array, load_factor}
use bfe.HashSet.Invariant.{IsWf, heads, bucket, total, total-update_above}
use bfe.HashSet.Keys.{is_member}
use bfe.HashSet.Refine.{Represents}

nodes_from : ℕ → ℕ → List ℕ
nodes_from i zero = []
nodes_from i (suc m) = i ∷ nodes_from (suc i) m

length-linked_from : (m i : ℕ) → length (linked_from i m) ≡ m
unfolding linked_from
length-linked_from zero i = refl
length-linked_from (suc zero) i = refl
length-linked_from (suc (suc m)) i = ap suc (length-linked_from (suc m) (i + 1))

length-nodes_from : (m i : ℕ) → length (nodes_from i m) ≡ m
unfolding nodes_from
length-nodes_from zero i = refl
length-nodes_from (suc m) i = ap suc (length-nodes_from m (suc i))

nodes_from-Avoids : (m i j : ℕ) → j < i → Avoids j (nodes_from i m)
unfolding nodes_from
nodes_from-Avoids zero i j h = tt
nodes_from-Avoids (suc m) i j h =
    (λ e. omega (arith, e, h), nodes_from-Avoids m (suc i) j (omega arith))

nodes_from-Distinct : (m i : ℕ) → Distinct (nodes_from i m)
unfolding nodes_from
nodes_from-Distinct zero i = tt
nodes_from-Distinct (suc m) i =
    (nodes_from-Avoids m (suc i) i (omega arith), nodes_from-Distinct m (suc i))

nodes_from-All : (P : ℕ → Type 0) (m i : ℕ) → ((j : ℕ) → P j) → All P (nodes_from i m)
unfolding nodes_from
nodes_from-All P zero i h = tt
nodes_from-All P (suc m) i h = (h i, nodes_from-All P m (suc i) h)

-- The links from node i on stand in the array from index i on.
linked_from-IsChain :
    (array : List Link) (m i : ℕ)
    → ((j : ℕ) (link : Link)
        → get_elem? (linked_from i (suc m)) j ≡ some link
        → get_elem? array (i + j) ≡ some link)
    → IsChain array (some i) (nodes_from i (suc m))
unfolding linked_from nodes_from
linked_from-IsChain array zero i h =
    let g = h 0 none refl in let e : i + 0 ≡ i = omega arith in (refl, (none, rw e at g, refl))
linked_from-IsChain array (suc m) i h =
    let g = h 0 (some (i + 1)) refl in
    let e : i + 0 ≡ i = omega arith in
    let next : i + 1 ≡ suc i = omega arith in
    (
      refl,
      (
        some (suc i),
        rw (e, next) at g,
        linked_from-IsChain array m (suc i) (λ j link f.
            let shift : i + suc j ≡ suc i + j = omega arith in
            rw shift at (h (suc j) link (rw next f))),
      ),
    )

none_in : (m b : ℕ) → bucket (replicate m none) b ≡ none
none_in zero b = refl
none_in (suc m) zero = refl
none_in (suc m) (suc b) = none_in m b

total-empty : (m : ℕ) → total m (λ _. []) ≡ 0
total-empty zero = refl
total-empty (suc m) = omega (arith, total-empty m)

module _ {P : Type 0} (pool : IBytePool P) (hash : Bytes → ℕ) (n s : ℕ) (h : 0 < n) where
  abbrev started : HashSet P
  started = record {
    ha = new_hash_array (n * load_factor);
    ha_size = n * load_factor;
    np = new_node_pool pool n s;
  }

  abbrev start_chains : ℕ → List ℕ
  start_chains = update (λ _. []) (n * load_factor) (nodes_from 0 n)

  free-IsChain : IsChain (linked_from 0 n) (some 0) (nodes_from 0 n)
  free-IsChain =
      let e : n ≡ suc (n - 1) = omega arith in
      rw e (
        linked_from-IsChain (linked_from 0 (suc (n - 1))) (n - 1) 0
          (λ j link f. let z : 0 + j ≡ j = omega arith in rw z f))

  start_parts :
      Partition started.np.array (heads pool hash started) start_chains (λ _. n * load_factor)
  unfolding new_node_pool new_hash_array
  start_parts = record {
    linked = λ b. elim (Bool-cases (b == n * load_factor)) [
      | inl e ↦ rw e free-IsChain
      | inr e ↦ rw e (none_in (n * load_factor) b)
    ];
    owned = λ b. elim (Bool-cases (b == n * load_factor)) [
      | inl e ↦
          let same : n * load_factor ≡ b = ground arith in
          rw e (nodes_from-All (λ m. n * load_factor ≡ b) n 0 (λ j. same))
      | inr e ↦ rw e tt
    ];
    distinct = λ b. elim (Bool-cases (b == n * load_factor)) [
      | inl e ↦ rw e (nodes_from-Distinct n 0)
      | inr e ↦ rw e tt
    ];
  }

  start_key : ℕ → Bytes
  start_key _ = []

  started-IsWf : IsWf pool hash started start_chains (λ _. n * load_factor) start_key n s
  unfolding new_node_pool new_hash_array
  started-IsWf = record {
    parts = start_parts;
    ha_length = length-replicate (n * load_factor) none;
    positive = omega arith;
    array_length = length-linked_from n 0;
    capacity = refl;
    holds = pool.new_holds n s;
    buckets = λ b ne.
        let e : (b == n * load_factor) ≡ false = ground arith in
        rw e (record { stored = tt; hashed = tt; once = tt });
    counted =
        total-update_above (n * load_factor) (n * load_factor) (nodes_from 0 n) (λ _. [])
          (omega arith)
        ∙ total-empty (n * load_factor);
    all_nodes =
        let e : (n * load_factor == n * load_factor) ≡ true = ground arith in
        rw e (omega (arith, length-nodes_from n 0));
  }

  -- A new set has no keys.
  pub started-Represents : Represents pool hash n s started []
  unfolding new_node_pool is_member
  started-Represents = record {
    chains = start_chains;
    owner = λ _. n * load_factor;
    key = start_key;
    wf = started-IsWf;
    same = λ x.
        let size : 0 < n * load_factor = omega arith in
        let lt = mod-lt (hash x) size in
        let ne : (hash x % (n * load_factor) == n * load_factor) ≡ false = ground arith in
        rw ne refl;
    size = refl;
    no_repeats = tt;
  }
