-- ===== src/HashSet/Invariant.antt =====
-- The lists of a hash set: one per bucket, and the free nodes as the list behind the buckets.
use bfe.Common.{
  ℕ, suc, zero, ◌≡◌, ◌≢◌, ◌<◌, ◌≤◌, ◌+◌, ◌%◌, refl, sym, ap, ◌∙◌, Bool, true, false, not, ◌&&◌,
  ◌||◌, Option, none, some, List, [], ◌∷◌, length, get_elem?, arith, if◌then◌else◌, ◌==◌,
  Bool-cases, inl, inr, Bytes, bytes_eq, bytes_eq→eq, bytes_eq_refl,
}
use bfe.BytePool.{IBytePool}
use bfe.NodePool.{Link}
use bfe.NodePool.Chains.{All, Avoids, has_key, Stored}
use bfe.NodePool.Partition.{Partition, update, Removes, here, there}
use bfe.HashSet.{HashSet}

-- The number of nodes in the first lists.
abbrev pub total : ℕ → (ℕ → List ℕ) → ℕ
total zero chains = 0
total (suc n) chains = length (chains n) + total n chains

pub le-total : (n b : ℕ) (chains : ℕ → List ℕ) → b < n → length (chains b) ≤ total n chains
le-total zero b chains h = absurd (omega arith)
le-total (suc n) b chains h = elim (Bool-cases (b == n)) [
  | inl e ↦ let same : b ≡ n = ground arith in rw same (omega arith)
  | inr e ↦ let ih = le-total n b chains (ground arith) in omega arith
]

pub total-update_above :
    (n a : ℕ) (ns : List ℕ) (chains : ℕ → List ℕ)
    → n ≤ a
    → total n (update chains a ns) ≡ total n chains
total-update_above zero a ns chains h = refl
total-update_above (suc n) a ns chains h =
    let e : (n == a) ≡ false = ground arith in
    rw e (omega (arith, total-update_above n a ns chains (omega arith)))

pub total-update :
    (n a : ℕ) (ns : List ℕ) (chains : ℕ → List ℕ)
    → a < n
    → total n (update chains a ns) + length (chains a) ≡ total n chains + length ns
total-update zero a ns chains h = absurd (omega arith)
total-update (suc n) a ns chains h = elim (Bool-cases (n == a)) [
  | inl e ↦
      let same : n ≡ a = ground arith in
      let u = total-update_above n a ns chains (omega arith) in
      let l : length (chains n) ≡ length (chains a) = ap (λ t. length (chains t)) same in
      rw e (omega arith)
  | inr e ↦ rw e (omega (arith, total-update n a ns chains (ground arith)))
]

-- No two nodes have the same key.
abbrev pub DistinctKeys : (ℕ → Bytes) → List ℕ → Type 0
DistinctKeys key [] = Unit
DistinctKeys key (n ∷ ns) = (has_key key (key n) ns ≡ false) × DistinctKeys key ns

abbrev pub link_of : Option Link → Link
link_of none = none
link_of (some link) = link

abbrev pub bucket : List Link → ℕ → Link
bucket ha b = link_of (get_elem? ha b)

module _ {P : Type 0} (pool : IBytePool P) (hash : Bytes → ℕ) where
  abbrev pub heads : HashSet P → ℕ → Link
  heads t b = if b == t.ha_size then t.np.free_node else bucket t.ha b

  -- What the buckets hold.
  pub record IsBucket (t : HashSet P) (key : ℕ → Bytes) (b : ℕ) (ns : List ℕ) : Type 0 where
    pub stored : Stored pool t.np.pool key ns
    pub hashed : All (λ m. hash (key m) % t.ha_size ≡ b) ns
    pub once : DistinctKeys key ns

  pub record IsWf (t : HashSet P) (chains : ℕ → List ℕ) (owner : ℕ → ℕ) (key : ℕ → Bytes) (n s : ℕ)
      : Type 0 where
    pub parts : Partition t.np.array (heads t) chains owner
    pub ha_length : length t.ha ≡ t.ha_size
    pub positive : 0 < t.ha_size
    pub array_length : length t.np.array ≡ n
    pub capacity : t.np.capacity ≡ n
    pub holds : pool.Holds t.np.pool n s
    pub buckets : (b : ℕ) → b ≢ t.ha_size → IsBucket t key b (chains b)
    pub counted : total t.ha_size chains ≡ t.np.elem_num
    pub all_nodes : t.np.elem_num + length (chains t.ha_size) ≡ n

-- Keys of nodes that are not n.
pub has_key-update :
    (key : ℕ → Bytes) (n : ℕ) (k x : Bytes) (ns : List ℕ)
    → Avoids n ns
    → has_key (update key n k) x ns ≡ has_key key x ns
has_key-update key n k x [] a = refl
has_key-update key n k x (m ∷ ns) a =
    let e : (m == n) ≡ false = ground (arith, a.0) in rw (e, has_key-update key n k x ns a.1) refl

pub DistinctKeys-update :
    (key : ℕ → Bytes) (n : ℕ) (k : Bytes) (ns : List ℕ)
    → Avoids n ns
    → DistinctKeys key ns
    → DistinctKeys (update key n k) ns
DistinctKeys-update key n k [] a d = tt
DistinctKeys-update key n k (m ∷ ns) a d =
    let e : (m == n) ≡ false = ground (arith, a.0) in
    (rw e (has_key-update key n k (key m) ns a.1 ∙ d.0), DistinctKeys-update key n k ns a.1 d.1)

pub Removes-has_key :
    {n : ℕ} {ns ns' : List ℕ} (key : ℕ → Bytes) → Removes n ns ns' → has_key key (key n) ns ≡ true
Removes-has_key {n} key (here {ns = ns}) = rw (bytes_eq_refl (key n)) refl
Removes-has_key {n} key (there {m = m} r) =
    let h = Removes-has_key key r in
    elim (Bool-cases (bytes_eq (key n) (key m))) [ inl e ↦ rw e refl | inr e ↦ rw (e, h) refl ]

remove_front : (b c : Bool) → (c ≡ true → b ≡ false) → b ≡ ((c || b) && not c)
remove_front b true h = h refl
remove_front true false h = refl
remove_front false false h = refl

remove_behind : (a b c : Bool) → (a ≡ true → c ≡ false) → (a || (b && not c)) ≡ ((a || b) && not c)
remove_behind true b c h = let e = h refl in rw e refl
remove_behind false b c h = refl

-- Without a node the other keys are left, each where it was.
pub has_key-Removes :
    {n : ℕ} {ns ns' : List ℕ} (key : ℕ → Bytes) (x : Bytes)
    → Removes n ns ns'
    → DistinctKeys key ns
    → has_key key x ns' ≡ (has_key key x ns && not (bytes_eq x (key n)))
has_key-Removes {n} key x (here {ns = ns}) d =
    remove_front (has_key key x ns) (bytes_eq x (key n))
      (λ e. let same = bytes_eq→eq x (key n) e in rw same (d.0))
has_key-Removes {n} key x (there {m = m} {ns = ns} r) d =
    let other : bytes_eq x (key m) ≡ true → bytes_eq x (key n) ≡ false = λ e.
      elim (Bool-cases (bytes_eq x (key n))) [
        | inr f ↦ f
        | inl f ↦
            let same : key n ≡ key m = sym (bytes_eq→eq x (key n) f) ∙ bytes_eq→eq x (key m) e in
            let u : has_key key (key m) ns ≡ true = rw (← same) (Removes-has_key key r) in
            let v = d.0 in cc
      ] in
    rw (has_key-Removes key x r d.1)
      (remove_behind (bytes_eq x (key m)) (has_key key x ns) (bytes_eq x (key n)) other)

pub DistinctKeys-Removes :
    {n : ℕ} {ns ns' : List ℕ} (key : ℕ → Bytes)
    → Removes n ns ns'
    → DistinctKeys key ns
    → DistinctKeys key ns'
DistinctKeys-Removes key here d = d.1
DistinctKeys-Removes {n} key (there {m = m} {ns = ns} r) d =
    let e = d.0 in (has_key-Removes key (key m) r d.1 ∙ (rw e refl), DistinctKeys-Removes key r d.1)
