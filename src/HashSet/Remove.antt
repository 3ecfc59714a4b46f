-- ===== src/HashSet/Remove.antt =====
-- Removing a key: the set is as it was, or one node has been unlinked.
use mathlib.Core.Path.{subst}
use bfe.Common.{
  ℕ, suc, zero, ◌≡◌, ◌≢◌, ◌<◌, ◌+◌, refl, sym, ap, ◌∙◌, true, false, some, List, [], ◌∷◌, length,
  get_elem?, set, arith, leb, Bool-cases, inl, inr, Bytes, bytes_eq,
}
use bfe.BytePool.{IBytePool}
use bfe.NodePool.{Link, NodePool, Run, ok, ◌>>=◌, recycle_node, del_loop}
use bfe.NodePool.Chains.{All, IsChain, Avoids, Distinct, has_key, Stored}
use bfe.NodePool.Partition.{Removes, here, there, owner-Avoids}
use bfe.NodePool.Delete.{Deletion, missing, unlinked, del_loop-Deletion}
use bfe.HashSet.{HashSet, remove}
use bfe.HashSet.Invariant.{IsWf, bucket}
use bfe.HashSet.Exist.{slot, slot_ne, at_slot, slot-IsChain, slot_short, validate}
use bfe.HashSet.Unlink.{unlinked_set}

set-same : (xs : List Link) (i : ℕ) (v : Link) → get_elem? xs i ≡ some v → set xs i v ≡ xs
set-same [] i v h = refl
set-same (x ∷ xs) zero v h = cc
set-same (x ∷ xs) (suc i) v h = ap (λ t. x ∷ t) (set-same xs i v h)

All-refl : (array : List Link) (ns : List ℕ) → All (λ m. get_elem? array m ≡ get_elem? array m) ns
All-refl array [] = tt
All-refl array (n ∷ ns) = (refl, All-refl array ns)

-- Nodes of another list avoid all those of this one.
All-frame :
    (array array' : List Link) (owner : ℕ → ℕ) (b j : ℕ) (ns ms : List ℕ)
    → j ≢ b
    → All (λ m. owner m ≡ b) ns
    → All (λ m. owner m ≡ j) ms
    → ((m : ℕ) → Avoids m ns → get_elem? array' m ≡ get_elem? array m)
    → All (λ m. get_elem? array' m ≡ get_elem? array m) ms
All-frame array array' owner b j ns [] h o a f = tt
All-frame array array' owner b j ns (m ∷ ms) h o a f = (
  f m (owner-Avoids owner m b ns (λ e. h (sym (a.0) ∙ e)) o),
  All-frame array array' owner b j ns ms h o a.1 f,
)

module _ {P : Type 0} (pool : IBytePool P) (hash : Bytes → ℕ) (t : HashSet P) (chains : ℕ → List ℕ)
    (owner : ℕ → ℕ) (key : ℕ → Bytes) (n s : ℕ) (w : IsWf pool hash t chains owner key n s)
    (k : Bytes) where
  abbrev b : ℕ
  b = slot pool hash t chains owner key n s w k

  pub data Removal : Run (HashSet P) → Type 0 where
    absent : has_key key k (chains b) ≡ false → Removal (ok t)
    gone :
        (node : ℕ) (ns : List ℕ) (link : Link) (array : List Link)
        (found : bytes_eq k (key node) ≡ true) (r : Removes node (chains b) ns)
        (c : IsChain array link ns)
        (frame : (j : ℕ) → j ≢ b → All (λ m. get_elem? array m ≡ get_elem? t.np.array m) (chains j))
        (size : length array ≡ length t.np.array)
        → Removal (
            ok (
              unlinked_set pool hash t chains owner key n s w k node ns link array found r c frame
                size))

  deleted : Link → NodePool P → HashSet P
  deleted link np = record t { ha = set t.ha b link; np = np }

  Removal-loop :
      (p : ℕ) (ns : List ℕ) (result : Run (NodePool P))
      → chains b ≡ p ∷ ns
      → get_elem? t.ha b ≡ some (some p)
      → bytes_eq k (key p) ≡ false
      → Deletion pool t.np key k p ns result
      → Removal (result >>= λ np'. ok (deleted (some p) np'))
  unfolding deleted
  Removal-loop p ns result e g f (missing h) =
      let same = set-same t.ha b (some p) g in rw same (absent (rw (e, f) h))
  Removal-loop p ns result e g f (unlinked node ns' array' u) =
      gone node (p ∷ ns') (some p) array' u.found (rw e (there u.removes)) u.chain
        (λ j h.
          All-frame t.np.array array' owner b j (p ∷ ns) (chains j) h (rw e at (w.parts.owned b))
            (w.parts.owned j) u.frame)
        u.size

  -- The key is at the head of its list.
  Removal-head :
      (p : ℕ) (ns : List ℕ) (next : Link)
      → chains b ≡ p ∷ ns
      → bytes_eq k (key p) ≡ true
      → IsChain t.np.array next ns
      → Removal (ok (deleted next (recycle_node pool t.np p)))
  unfolding deleted
  Removal-head p ns next e f c =
      gone p ns next t.np.array f (rw e here) c (λ j h. All-refl t.np.array (chains j)) refl

  bind_deleted :
      (p : ℕ) (m : Run (NodePool P))
      → (◌>>=◌ {B = Link × NodePool P} m (λ np'. ok (some p, np')) >>= λ r.
          ok (record t { ha = set t.ha b r.0; np = r.1 }))
        ≡ (m >>= λ np'. ok (deleted (some p) np'))
  unfolding deleted
  bind_deleted p (ok np') = refl
  bind_deleted p (Run.err e) = refl
  bind_deleted p Run.fault = refl

  Removal-chain :
      (ns : List ℕ)
      → chains b ≡ ns
      → IsChain t.np.array (bucket t.ha b) ns
      → leb (length k) s ≡ true
      → Removal (remove pool hash t k)
  unfolding remove deleted
  Removal-chain [] e link v =
      let g = at_slot pool hash t chains owner key n s w k in
      rw (validate pool hash t chains owner key n s w k, v, g, link) (absent (rw e refl))
  Removal-chain (p ∷ ns) e (link, (next, at_p, c)) v =
      let g = at_slot pool hash t chains owner key n s w k ∙ ap (λ x. some x) link in
      let ne = slot_ne pool hash t chains owner key n s w k in
      let stored : Stored pool t.np.pool key (p ∷ ns) = rw e at ((w.buckets b ne).stored) in
      let distinct : Distinct (p ∷ ns) = rw e at (w.parts.distinct b) in
      let long = slot_short pool hash t chains owner key n s w k in
      let short : length ns < t.np.capacity + 1 = let l = ap length e in omega (arith, long, l) in
      elim (Bool-cases (bytes_eq k (key p))) [
        | inl f ↦
            rw (validate pool hash t chains owner key n s w k, v, g, stored.0, f, at_p)
              (Removal-head p ns next e f c)
        | inr f ↦
            rw (validate pool hash t chains owner key n s w k, v, g, stored.0, f)
              (subst Removal (sym (bind_deleted p (del_loop pool (t.np.capacity + 1) t.np p k))) (
                Removal-loop p ns _ e g f (
                  del_loop-Deletion pool (t.np.capacity + 1) t.np p ns key k short
                    (refl, (next, at_p, c)) distinct stored.1)))
      ]

  pub Removal-remove : leb (length k) s ≡ true → Removal (remove pool hash t k)
  Removal-remove v =
      Removal-chain (chains b) refl (slot-IsChain pool hash t chains owner key n s w k) v
