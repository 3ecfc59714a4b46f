-- ===== src/Gslb/Consistent.antt =====
-- The counts that a cluster keeps of its sub-clusters' weights, which `Init` and `Reload` establish.
use mathlib.Core.Path.{subst}
use bfe.Common.{
  ℕ, zero, suc, ◌+◌, ◌<◌, ◌≡◌, refl, sym, ap, ◌∙◌, Bool, true, false, Option, none, some, List, [],
  ◌∷◌, ◌++◌, Bytes, if◌then◌else◌, ◌==◌, get_elem?, arith, Bool-cases, Option-cases, inl, inr,
  sort_by, insert_by,
}
use bfe.Common.Int.{ℤ, pos, pos_part, neg_part, ◌+ℤ◌, ltb_ℤ, eqb_ℤ, int_laws}
use bfe.Gslb.{SubCluster, BalanceGslb}
use bfe.Gslb.Weights.{
  GslbClusterConf, Outcome, done, total_weight_zero, has_weight, sub_name, Weights, count_weight,
  count_weights, new_of_conf, init_loop, init,
}
use bfe.Gslb.Reload.{adopt, reload, keep_loop, new_loop}

unfoldable pub weight_sum : List SubCluster → ℕ
weight_sum [] = 0
weight_sum (s ∷ ss) =
    let rest = weight_sum ss in if has_weight s then pos_part s.weight + rest else rest

positives : List SubCluster → ℕ
positives [] = 0
positives (s ∷ ss) = let rest = positives ss in if has_weight s then suc rest else rest

-- `avail` is the only sub-cluster with a positive weight.
abbrev pub IsOnly : List SubCluster → ℕ → Type 0
IsOnly subs i =
    (s : SubCluster) × (get_elem? subs i ≡ some s)
    × (has_weight s ≡ true)
    × ((k : ℕ) (c : SubCluster) → get_elem? subs k ≡ some c → has_weight c ≡ true → k ≡ i)

pub record IsConsistent (bal : BalanceGslb) : Type 0 where
  pub total : bal.total_weight ≡ pos (weight_sum bal.sub_clusters)
  pub positive : 0 < weight_sum bal.sub_clusters
  pub only : bal.single ≡ true → IsOnly bal.sub_clusters bal.avail

weight_sum-append :
    (xs ys : List SubCluster) → weight_sum (xs ++ ys) ≡ weight_sum xs + weight_sum ys
unfolding weight_sum
weight_sum-append [] ys = omega arith
weight_sum-append (x ∷ xs) ys = ground (arith, weight_sum-append xs ys)

weight_sum-insert_by :
    (x : SubCluster) (xs : List SubCluster)
    → weight_sum (insert_by sub_name x xs) ≡ weight_sum (x ∷ xs)
unfolding weight_sum insert_by
weight_sum-insert_by x [] = refl
weight_sum-insert_by x (y ∷ ys) = ground (arith, weight_sum-insert_by x ys)

weight_sum-sort_by : (xs : List SubCluster) → weight_sum (sort_by sub_name xs) ≡ weight_sum xs
unfolding weight_sum sort_by
weight_sum-sort_by [] = refl
weight_sum-sort_by (x ∷ xs) =
    weight_sum-insert_by x (sort_by sub_name xs) ∙ ground (arith, weight_sum-sort_by xs)

pub has_weight_parts :
    (s : SubCluster) → has_weight s ≡ true → (neg_part s.weight ≡ 0) × (0 < pos_part s.weight)
has_weight_parts s h = ground arith

count_weights-total :
    (i : ℕ) (subs : List SubCluster) (w : Weights)
    → (count_weights i subs w).total ≡ w.total +ℤ pos (weight_sum subs)
unfolding count_weights weight_sum
count_weights-total i [] w = omega int_laws
count_weights-total i (s ∷ ss) w = elim (Bool-cases (has_weight s)) [
  | inl e ↦
      count_weights-total (suc i) ss (count_weight i s w)
      ∙ rw e (omega (int_laws, has_weight_parts s e))
  | inr e ↦ count_weights-total (suc i) ss (count_weight i s w) ∙ rw e refl
]

count_weights-available :
    (i : ℕ) (subs : List SubCluster) (w : Weights)
    → (count_weights i subs w).available ≡ w.available + positives subs
unfolding count_weights positives
count_weights-available i [] w = omega arith
count_weights-available i (s ∷ ss) w =
    count_weights-available (suc i) ss (count_weight i s w) ∙ ground arith

no_positives :
    (subs : List SubCluster)
    → positives subs ≡ 0
    → (k : ℕ) (c : SubCluster) → get_elem? subs k ≡ some c
    → has_weight c ≡ false
unfolding positives
no_positives [] h k c g = ground arith
no_positives (s ∷ ss) h zero c g = ground arith
no_positives (s ∷ ss) h (suc k) c g = no_positives ss (ground arith) k c g

count_weights-none :
    (i : ℕ) (subs : List SubCluster) (w : Weights)
    → positives subs ≡ 0
    → (count_weights i subs w).last ≡ w.last
unfolding count_weights positives
count_weights-none i [] w h = refl
count_weights-none i (s ∷ ss) w h =
    count_weights-none (suc i) ss (count_weight i s w) (ground arith) ∙ ground arith

-- Where one sub-cluster has a positive weight, it is the one that the count ends with.
count_weights-last :
    (i : ℕ) (subs : List SubCluster) (w : Weights)
    → positives subs ≡ 1
    → (n : ℕ) × ((count_weights i subs w).last ≡ i + n) × IsOnly subs n
unfolding count_weights positives
count_weights-last i [] w h = absurd (omega arith)
count_weights-last i (s ∷ ss) w h = elim (Bool-cases (has_weight s)) [
  | inl e ↦
      let z : positives ss ≡ 0 = ground arith in
      (
        0,
        count_weights-none (suc i) ss (count_weight i s w) z ∙ rw e (omega arith),
        (s, refl, e, only_first z),
      )
  | inr e ↦
      let (n, l, o) = count_weights-last (suc i) ss (count_weight i s w) (ground arith) in
      (suc n, l ∙ omega arith, (o.0, o.1, o.2, only_later e n o))
]
  where
    only_first :
        positives ss ≡ 0
        → (k : ℕ) (c : SubCluster) → get_elem? (s ∷ ss) k ≡ some c
        → has_weight c ≡ true
        → k ≡ 0
    only_first z zero c g p = refl
    only_first z (suc k) c g p = ground (arith, no_positives ss z k c g)

    only_later :
        has_weight s ≡ false
        → (n : ℕ) → IsOnly ss n
        → (k : ℕ) (c : SubCluster) → get_elem? (s ∷ ss) k ≡ some c
        → has_weight c ≡ true
        → k ≡ suc n
    only_later e n o zero c g p = ground arith
    only_later e n o (suc k) c g p = ap suc (o.3 k c g p)

added-total :
    (subs : List SubCluster) (e : Bytes × ℤ) (t : ℤ)
    → t ≡ pos (weight_sum subs)
    → (if ltb_ℤ (pos 0) e.1 then t +ℤ e.1 else t) ≡ pos (weight_sum (subs ++ new_of_conf e ∷ []))
unfolding weight_sum
added-total subs e t h = elim (Bool-cases (has_weight (new_of_conf e))) [
  | inl p ↦
      rw (p, h, weight_sum-append subs (new_of_conf e ∷ []), p)
        (omega (int_laws, has_weight_parts (new_of_conf e) p))
  | inr p ↦ rw (p, h, weight_sum-append subs (new_of_conf e ∷ []), p) (omega int_laws)
]

init_loop-total :
    (conf : GslbClusterConf) (subs : List SubCluster) (t : ℤ)
    → t ≡ pos (weight_sum subs)
    → (init_loop conf subs t).1 ≡ pos (weight_sum (init_loop conf subs t).0)
unfolding init_loop
init_loop-total [] subs t h = h
init_loop-total (e ∷ conf) subs t h = init_loop-total conf _ _ (added-total subs e t h)

-- A count of one that starts from nothing.
one_available :
    (subs : List SubCluster) (last : ℕ)
    → let w = count_weights 0 subs (record { total = pos 0; available = 0; last = last }) in
      (w.available == 1) ≡ true → IsOnly subs w.last
one_available subs last h =
    let w0 : Weights = record { total = pos 0; available = 0; last = last } in
    let a = count_weights-available 0 subs w0 in
    let (n, l, o) = count_weights-last 0 subs w0 (ground (arith, a)) in
    let e : (count_weights 0 subs w0).last ≡ n = omega (arith, l) in rw e o

count_from_zero :
    (subs : List SubCluster) (last : ℕ)
    → (count_weights 0 subs (record { total = pos 0; available = 0; last = last })).total
      ≡ pos (weight_sum subs)
count_from_zero subs last = count_weights-total 0 subs _ ∙ omega int_laws

abbrev outcome_of : Bool → BalanceGslb → BalanceGslb → BalanceGslb × Outcome
outcome_of failed x y = if failed then (x, total_weight_zero) else (y, done)

IsConsistent-if :
    (failed : Bool) (x y : BalanceGslb)
    → (outcome_of failed x y).1 ≡ done
    → (failed ≡ false → IsConsistent y)
    → IsConsistent (outcome_of failed x y).0
IsConsistent-if true x y h c = ground arith
IsConsistent-if false x y h c = c refl

positive_if : (t : ℤ) (n : ℕ) → t ≡ pos n → eqb_ℤ t (pos 0) ≡ false → 0 < n
positive_if t n h e = ground arith

-- `Init` of a new cluster that does not fail leaves it consistent: the total is that of the positive
-- weights, there is one, and a cluster counted as single has exactly the one at `avail`.
pub init-IsConsistent :
    (conf : GslbClusterConf) (bal : BalanceGslb)
    → bal.sub_clusters ≡ []
    → (init conf bal).1 ≡ done
    → IsConsistent (init conf bal).0
unfolding init weight_sum
init-IsConsistent conf bal e d = IsConsistent-if _ _ _ d λ z.
    let t = init_loop-total conf bal.sub_clusters (pos 0) (ap (λ l. pos (weight_sum l)) (sym e)) in
    let same = weight_sum-sort_by (init_loop conf bal.sub_clusters (pos 0)).0 in
    record {
      total = t ∙ ap pos (sym same);
      positive = rw same (positive_if _ _ t z);
      only = one_available _ bal.avail;
    }

adopt-IsConsistent :
    (olds subs : List SubCluster) (bal : BalanceGslb)
    → (adopt olds subs bal).1 ≡ done
    → IsConsistent (adopt olds subs bal).0
unfolding adopt
adopt-IsConsistent olds subs bal d = IsConsistent-if _ _ _ d λ z. record {
  total = count_from_zero subs 0;
  positive = positive_if _ _ (count_from_zero subs 0) z;
  only = λ s. rw s (one_available subs 0 s);
}

-- So does every `Reload` that does not fail, whatever the cluster was before.
pub reload-IsConsistent :
    (conf : GslbClusterConf) (bal bal' : BalanceGslb)
    → reload conf bal ≡ some (bal', done)
    → IsConsistent bal'
unfolding reload
reload-IsConsistent conf bal bal' h = elim (Option-cases (keep_loop conf bal.sub_clusters)) [
  | inl e ↦ absurd (no_reload (rw (reload, e) at h))
  | inr (r, e) ↦
      let a = reloaded _ bal' (rw (reload, e) at h) in
      subst IsConsistent (ap (λ p. p.0) a) (
        adopt-IsConsistent r.olds (sort_by sub_name (r.kept ++ new_loop bal.sub_clusters conf)) bal
          (ap (λ p. p.1) a))
]
  where
    no_reload : ◌≡◌ {A = Option (BalanceGslb × Outcome)} none (some (bal', done)) → ⊥
    no_reload e = cc

    reloaded :
        (p : BalanceGslb × Outcome) (b : BalanceGslb)
        → ◌≡◌ {A = Option (BalanceGslb × Outcome)} (some p) (some (b, done))
        → ◌≡◌ {A = BalanceGslb × Outcome} p (b, done)
    reloaded p b e = cc
