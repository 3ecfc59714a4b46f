-- ===== src/NodePool/Delete.antt =====
-- The loop of `del`: it unlinks the node that has the key, wherever it is in the list.
use bfe.Common.{
  ℕ, suc, zero, ◌≡◌, ◌<◌, refl, sym, ap, ◌∙◌, true, false, some, List, [], ◌∷◌, length, get_elem?,
  set, get_elem?-set_self, get_elem?-set_ne, length-set, arith, Bool-cases, inl, inr, Bytes,
  bytes_eq,
}
use bfe.BytePool.{IBytePool}
use bfe.NodePool.{Link, NodePool, Run, ok, del_loop, recycle_node}
use bfe.NodePool.Chains.{IsChain, Avoids, Distinct, IsChain-set, has_key, Stored, lt_length}
use bfe.NodePool.Partition.{Removes, here, there}

-- The nodes `ns` behind p have become `ns'`, without n, and no node elsewhere has changed.
pub record Unlinks (array array' : List Link) (key : ℕ → Bytes) (k : Bytes) (p n : ℕ)
    (ns ns' : List ℕ) : Type 0 where
  pub found : bytes_eq k (key n) ≡ true
  pub removes : Removes n ns ns'
  pub chain : IsChain array' (some p) (p ∷ ns')
  pub frame : (m : ℕ) → Avoids m (p ∷ ns) → get_elem? array' m ≡ get_elem? array m
  pub size : length array' ≡ length array

module _ {P : Type 0} (pool : IBytePool P) where
  -- The two ends of the loop.
  pub data Deletion (np : NodePool P) (key : ℕ → Bytes) (k : Bytes) (p : ℕ) (ns : List ℕ)
      : Run (NodePool P) → Type 0 where
    missing : has_key key k ns ≡ false → Deletion np key k p ns (ok np)
    unlinked :
        (n : ℕ) (ns' : List ℕ) (array' : List Link)
        → Unlinks np.array array' key k p n ns ns'
        → Deletion np key k p ns (ok (recycle_node pool (record np { array = array' }) n))

  -- A node in front that does not have the key.
  Deletion-cons :
      (np : NodePool P) (key : ℕ → Bytes) (k : Bytes) (p q : ℕ) (qs : List ℕ) {r : Run (NodePool P)}
      → bytes_eq k (key q) ≡ false
      → get_elem? np.array p ≡ some (some q)
      → Avoids p (q ∷ qs)
      → Deletion np key k q qs r
      → Deletion np key k p (q ∷ qs) r
  Deletion-cons np key k p q qs e g a (missing h) = missing (rw (e, h) refl)
  Deletion-cons np key k p q qs e g a (unlinked n ns' array' u) =
      unlinked n (q ∷ ns') array' (record {
        found = u.found;
        removes = there u.removes;
        chain = (refl, (some q, u.frame p a ∙ g, u.chain));
        frame = λ m d. u.frame m d.1;
        size = u.size;
      })

  unlink-next :
      (array : List Link) (key : ℕ → Bytes) (k : Bytes) (p q : ℕ) (qs : List ℕ) (next : Link)
      → bytes_eq k (key q) ≡ true
      → p < length array
      → Avoids p (q ∷ qs)
      → IsChain array next qs
      → Unlinks array (set array p next) key k p q (q ∷ qs) qs
  unlink-next array key k p q qs next e h a c = record {
    found = e;
    removes = here;
    chain =
        (refl, (next, get_elem?-set_self array p next h, IsChain-set array next qs p next a.1 c));
    frame = λ m d. get_elem?-set_ne array next (λ t. d.0 (sym t));
    size = length-set array p next;
  }

  pub del_loop-Deletion :
      (fuel : ℕ) (np : NodePool P) (p : ℕ) (ns : List ℕ) (key : ℕ → Bytes) (k : Bytes)
      → length ns < fuel
      → IsChain np.array (some p) (p ∷ ns)
      → Distinct (p ∷ ns)
      → Stored pool np.pool key ns
      → Deletion np key k p ns (del_loop pool fuel np p k)
  unfolding del_loop
  del_loop-Deletion zero np p ns key k f c d s = absurd (omega arith)
  del_loop-Deletion (suc fuel) np p [] key k f (_, (next, g, c)) d s = rw (g, c) (missing refl)
  del_loop-Deletion (suc fuel) np p (q ∷ qs) key k f (_, (link, g, (e, (next, g', c)))) d s =
      let ih = del_loop-Deletion fuel np q qs key k (omega arith) (refl, (next, g', c)) d.1 s.1 in
      let p_q : get_elem? np.array p ≡ some (some q) = g ∙ ap (λ t. some t) e in
      rw (p_q, s.0)
        (elim (Bool-cases (bytes_eq k (key q))) [
          | inl t ↦
              rw (t, g')
                (unlinked q qs (set np.array p next)
                  (unlink-next np.array key k p q qs next t (lt_length np.array p _ p_q) d.0 c))
          | inr t ↦ rw t (Deletion-cons np key k p q qs t p_q d.0 ih)
        ])
