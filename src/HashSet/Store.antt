-- ===== src/HashSet/Store.antt =====
-- What a new key for one node leaves of the others.
use bfe.Common.{
  ℕ, ◌≡◌, ◌≢◌, ◌<◌, ◌%◌, ap, ◌∙◌, false, some, List, [], ◌∷◌, length, get_elem?, set,
  get_elem?-set_self, get_elem?-set_ne, arith, if◌then◌else◌, ◌==◌, Bytes, Bool-cases, inl, inr,
}
use bfe.BytePool.{IBytePool}
use bfe.NodePool.{Link}
use bfe.NodePool.Chains.{All, Avoids, Stored}
use bfe.NodePool.Partition.{update}
use bfe.HashSet.Invariant.{bucket, link_of}

module _ {P : Type 0} (pool : IBytePool P) where
  pub Stored-set :
      (p : P) (n s i : ℕ) (key : ℕ → Bytes) (k : Bytes) (ns : List ℕ)
      → pool.Holds p n s
      → Avoids i ns
      → Stored pool p key ns
      → Stored pool (pool.set p i k).0 (update key i k) ns
  Stored-set p n s i key k [] h a st = tt
  Stored-set p n s i key k (m ∷ ns) h a st =
      let e : (m == i) ≡ false = ground (arith, a.0) in
      (rw e (pool.get-set_ne p n s i m k h (a.0) ∙ st.0), Stored-set p n s i key k ns h a.1 st.1)

pub hashed-update :
    (hash : Bytes → ℕ) (size b i : ℕ) (key : ℕ → Bytes) (k : Bytes) (ns : List ℕ)
    → Avoids i ns
    → All (λ m. hash (key m) % size ≡ b) ns
    → All (λ m. hash (update key i k m) % size ≡ b) ns
hashed-update hash size b i key k [] a h = tt
hashed-update hash size b i key k (m ∷ ns) a h =
    let e : (m == i) ≡ false = ground (arith, a.0) in
    (rw e h.0, hashed-update hash size b i key k ns a.1 h.1)

pub bucket-set :
    (ha : List Link) (i b : ℕ) (v : Link)
    → i < length ha
    → bucket (set ha i v) b ≡ (if b == i then v else bucket ha b)
bucket-set ha i b v h = elim (Bool-cases (b == i)) [
  | inl e ↦
      let same : b ≡ i = ground arith in
      let u : get_elem? (set ha i v) b ≡ some v = rw same (get_elem?-set_self ha i v h) in
      rw e (ap link_of u)
  | inr e ↦ let other : i ≢ b = ground arith in rw e (ap link_of (get_elem?-set_ne ha v other))
]
