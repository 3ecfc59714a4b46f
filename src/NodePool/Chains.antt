-- ===== src/NodePool/Chains.antt =====
-- A list of nodes in the array, and what a write to a node leaves of it.
use bfe.Common.{
  ℕ, suc, zero, ◌≡◌, ◌≢◌, ◌<◌, refl, ◌∙◌, Bool, false, ◌||◌, none, some, List, [], ◌∷◌, length,
  get_elem?, set, get_elem?-set_ne, Bytes, bytes_eq, arith, Bool-cases, inl, inr,
}
use bfe.BytePool.{IBytePool}
use bfe.NodePool.{Link, NodePool, ok, exist_loop}

abbrev pub All {ℓ κ} : {A : Type ℓ} → (A → Type κ) → List A → Type κ
All P [] = Unit
All P (x ∷ xs) = P x × All P xs

-- The nodes from a link on are these.
abbrev pub IsChain : List Link → Link → List ℕ → Type 0
IsChain array link [] = link ≡ none
IsChain array link (n ∷ ns) =
    (link ≡ some n) × ((next : Link) × (get_elem? array n ≡ some next) × IsChain array next ns)

abbrev pub Avoids : ℕ → List ℕ → Type 0
Avoids n = All (λ m. n ≢ m)

abbrev pub Distinct : List ℕ → Type 0
Distinct [] = Unit
Distinct (n ∷ ns) = Avoids n ns × Distinct ns

pub IsChain-set :
    (array : List Link) (link : Link) (ns : List ℕ) (n : ℕ) (v : Link)
    → Avoids n ns
    → IsChain array link ns
    → IsChain (set array n v) link ns
IsChain-set array link [] n v a c = c
IsChain-set array link (m ∷ ns) n v a (e, (next, g, c)) =
    (e, (next, get_elem?-set_ne array v (a.0) ∙ g, IsChain-set array next ns n v a.1 c))

pub lt_length {ℓ} :
    {A : Type ℓ} (xs : List A) (i : ℕ) (x : A) → get_elem? xs i ≡ some x → i < length xs
lt_length [] i x h = cc
lt_length (y ∷ xs) zero x h = omega arith
lt_length (y ∷ xs) (suc i) x h = omega (arith, lt_length xs i x h)

-- Some node has the key.
abbrev pub has_key : (ℕ → Bytes) → Bytes → List ℕ → Bool
has_key key k [] = false
has_key key k (n ∷ ns) = bytes_eq k (key n) || has_key key k ns

module _ {P : Type 0} (pool : IBytePool P) where
  -- The pool holds the keys of these nodes.
  abbrev pub Stored : P → (ℕ → Bytes) → List ℕ → Type 0
  Stored p key = All (λ n. pool.get p n ≡ some (key n))

  pub exist_loop-has_key :
      (fuel : ℕ) (np : NodePool P) (link : Link) (ns : List ℕ) (key : ℕ → Bytes) (k : Bytes)
      → length ns < fuel
      → IsChain np.array link ns
      → Stored np.pool key ns
      → exist_loop pool fuel np link k ≡ ok (has_key key k ns)
  unfolding exist_loop
  exist_loop-has_key zero np link ns key k f c s = absurd (omega arith)
  exist_loop-has_key (suc fuel) np link [] key k f c s = rw c refl
  exist_loop-has_key (suc fuel) np link (n ∷ ns) key k f (e, (next, g, c)) s =
      let ih = exist_loop-has_key fuel np next ns key k (omega arith) c s.1 in
      rw (e, s.0)
        (elim (Bool-cases (bytes_eq k (key n))) [ inl t ↦ rw t refl | inr t ↦ rw (t, g) ih ])
