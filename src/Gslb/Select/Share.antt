-- ===== src/Gslb/Select/Share.antt =====
-- Which sub-cluster a hash value leads to.
use mathlib.Core.Path.{}
use native.Mathlib.Nat.{mod-lt}
use bfe.Common.{
  ℕ, zero, suc, ◌+◌, ◌-◌, ◌%◌, ◌≤◌, ◌<◌, ◌≡◌, refl, ap, ◌∙◌, true, false, some, List, [], ◌∷◌,
  Bytes, ◌==◌, ltb, get_elem?, take, length, arith, Bool-cases, inl, inr,
}
use bfe.Common.Int.{ℤ, pos, pos_part, ◌-ℤ◌, ltb_ℤ, eqb_ℤ, int_laws}
use bfe.Slb.Sticky.{get_hash}
use bfe.Gslb.{SubCluster, BalanceGslb}
use bfe.Gslb.Weights.{has_weight}
use bfe.Gslb.Select.{Selection, selected, missing, sub_cluster_loop, sub_cluster_balance}
use bfe.Gslb.Consistent.{weight_sum, IsConsistent, has_weight_parts}

-- The weight of the sub-clusters before position i.
abbrev pub weight_before : ℕ → List SubCluster → ℕ
weight_before i subs = weight_sum (take i subs)

-- The sub-cluster at i has a positive weight, and w falls into its part of the total.
abbrev pub Owns : ℕ → List SubCluster → ℕ → Type 0
Owns w subs i =
    (s : SubCluster) × (get_elem? subs i ≡ some s)
    × (has_weight s ≡ true)
    × (weight_before i subs ≤ w)
    × (w < weight_before i subs + pos_part s.weight)

taken :
    (w : ℕ) (s : SubCluster)
    → has_weight s ≡ true
    → pos_part s.weight ≤ w
    → pos w -ℤ s.weight ≡ pos (w - pos_part s.weight)
taken w s h l = omega (int_laws, has_weight_parts s h)

loop-skip :
    (w : ℤ) (i : ℕ) (last : Selection) (s : SubCluster) (ss : List SubCluster)
    → has_weight s ≡ false
    → sub_cluster_loop w i last (s ∷ ss) ≡ sub_cluster_loop w (suc i) (selected i) ss
unfolding sub_cluster_loop
loop-skip w i last s ss h = rw h refl

loop-take :
    (w i : ℕ) (last : Selection) (s : SubCluster) (ss : List SubCluster)
    → has_weight s ≡ true
    → pos_part s.weight ≤ w
    → sub_cluster_loop (pos w) i last (s ∷ ss)
      ≡ sub_cluster_loop (pos (w - pos_part s.weight)) (suc i) (selected i) ss
unfolding sub_cluster_loop
loop-take w i last s ss h l = rw (h, taken w s h l) (ground arith)

loop-hit :
    (w i : ℕ) (last : Selection) (s : SubCluster) (ss : List SubCluster)
    → has_weight s ≡ true
    → w < pos_part s.weight
    → sub_cluster_loop (pos w) i last (s ∷ ss) ≡ selected i
unfolding sub_cluster_loop ◌-ℤ◌
loop-hit w i last s ss h l =
    let neg : ltb_ℤ (pos w -ℤ s.weight) (pos 0) ≡ true = ground arith in rw (h, neg) refl

Owns-cons :
    (w n : ℕ) (s : SubCluster) (ss : List SubCluster)
    → has_weight s ≡ true
    → pos_part s.weight ≤ w
    → Owns (w - pos_part s.weight) ss n
    → Owns w (s ∷ ss) (suc n)
unfolding weight_sum
Owns-cons w n s ss h l (c, g, p, low, high) =
    (c, g, p, rw h (omega (arith, low, l)), rw h (omega (arith, high, l)))

loop-Owns :
    (w i : ℕ) (last : Selection) (subs : List SubCluster)
    → w < weight_sum subs
    → (n : ℕ) × (sub_cluster_loop (pos w) i last subs ≡ selected (i + n)) × Owns w subs n
unfolding weight_sum
loop-Owns w i last [] h = absurd (omega arith)
loop-Owns w i last (s ∷ ss) h = elim (Bool-cases (has_weight s)) [
  | inr e ↦
      let (n, l, o) = loop-Owns w (suc i) (selected i) ss (rw e at h) in
      (
        suc n,
        loop-skip (pos w) i last s ss e ∙ l ∙ ap selected (omega arith),
        (o.0, o.1, o.2, rw e o.3, rw e o.4),
      )
  | inl e ↦ elim (Bool-cases (ltb w (pos_part s.weight))) [
    | inl l ↦ (
      0,
      loop-hit w i last s ss e (ground arith) ∙ ap selected (omega arith),
      (s, refl, e, omega arith, ground arith),
    )
    | inr l ↦
        let le : pos_part s.weight ≤ w = ground arith in
        let h' = rw e at h in
        let (n, r, o) =
          loop-Owns (w - pos_part s.weight) (suc i) (selected i) ss (omega (arith, h', le)) in
        (
          suc n,
          loop-take w i last s ss e le ∙ r ∙ ap selected (omega arith),
          Owns-cons w n s ss e le o,
        )
  ]
]

in_range :
    (subs : List SubCluster) (i : ℕ) (s : SubCluster)
    → get_elem? subs i ≡ some s
    → ltb i (length subs) ≡ true
in_range [] i s g = ground arith
in_range (x ∷ subs) zero s g = ground arith
in_range (x ∷ subs) (suc i) s g = ground (arith, in_range subs i s g)

-- A consistent cluster always gives a request with a key one of its sub-clusters, one with a positive
-- weight. Unless only one has a positive weight, it is the sub-cluster into whose part of the total
-- weight the hash of the key, modulo the total, falls.
pub sub_cluster_balance-Owns :
    (sum64 : Bytes → ℕ) (r : ℕ) (key : Bytes) (bal : BalanceGslb)
    → IsConsistent bal
    → (i : ℕ) × (s : SubCluster) × (sub_cluster_balance sum64 r (some key) bal ≡ selected i)
      × (get_elem? bal.sub_clusters i ≡ some s)
      × (has_weight s ≡ true)
      × (bal.single ≡ false → Owns (sum64 key % weight_sum bal.sub_clusters) bal.sub_clusters i)
unfolding sub_cluster_balance get_hash
sub_cluster_balance-Owns sum64 r key bal c =
    let nz : eqb_ℤ bal.total_weight (pos 0) ≡ false = rw c.total (ground (arith, c.positive)) in
    elim (Bool-cases bal.single) [
      | inl e ↦
          let (s, g, p, _) = c.only e in
          (
            bal.avail,
            s,
            rw (nz, e, in_range bal.sub_clusters bal.avail s g) refl,
            g,
            p,
            λ f. ground arith,
          )
      | inr e ↦
          let (n, l, o) =
            loop-Owns (sum64 key % weight_sum bal.sub_clusters) 0 missing bal.sub_clusters
              (mod-lt _ c.positive) in
          let nz' : (weight_sum bal.sub_clusters == 0) ≡ false = ground (arith, c.positive) in
          (n, o.0, rw (nz, e, c.total, nz') (l ∙ ap selected (omega arith)), o.1, o.2, λ _. o)
    ]
