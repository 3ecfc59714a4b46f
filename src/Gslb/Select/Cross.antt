-- ===== src/Gslb/Select/Cross.antt =====
-- `randomSelectExclude`: the sub-cluster that takes over.
use native.Mathlib.Nat.{mod-lt, zero-add}
use bfe.Common.{
  ℕ, zero, suc, ◌+◌, ◌-◌, ◌%◌, ◌<◌, ◌≡◌, refl, ap, ◌∙◌, ◌⊎◌, true, false, some, List, [], ◌∷◌, ◌==◌,
  get_elem?, arith, Bool-cases, inl, inr,
}
use bfe.Gslb.{SubCluster}
use bfe.Gslb.Select.{
  selected, no_sub_cluster, may_take_over, count_available, nth_available, random_select_exclude,
}

at_here : (i : ℕ) → i + 0 ≡ i
at_here i = omega arith

at_later : (i k : ℕ) → i + suc k ≡ suc i + k
at_later i k = omega arith

module _ (exclude : ℕ) where
  nth_available-found :
      (n i : ℕ) (subs : List SubCluster)
      → n < count_available exclude i subs
      → (k : ℕ) × (s : SubCluster) × (nth_available exclude n i subs ≡ selected (i + k))
        × (get_elem? subs k ≡ some s)
        × (may_take_over exclude (i + k) s ≡ true)
  unfolding count_available nth_available
  nth_available-found n i [] h = absurd (omega arith)
  nth_available-found n i (s ∷ ss) h = elim (Bool-cases (may_take_over exclude i s)) [
    | inl e ↦ elim (Bool-cases (n == 0)) [
      | inl z ↦ (0, s, rw (e, z) (ap selected (omega arith)), refl, rw (at_here i) e)
      | inr nz ↦
          let (k, c, r, g, t) = nth_available-found (n - 1) (suc i) ss (ground arith) in
          (suc k, c, rw (e, nz) (r ∙ ap selected (omega arith)), g, rw (at_later i k) t)
    ]
    | inr e ↦
        let (k, c, r, g, t) = nth_available-found n (suc i) ss (rw e at h) in
        (suc k, c, rw e (r ∙ ap selected (omega arith)), g, rw (at_later i k) t)
  ]

  none_available :
      (i : ℕ) (subs : List SubCluster)
      → count_available exclude i subs ≡ 0
      → (k : ℕ) (c : SubCluster) → get_elem? subs k ≡ some c
      → may_take_over exclude (i + k) c ≡ false
  unfolding count_available
  none_available i [] h k c g = ground arith
  none_available i (s ∷ ss) h zero c g = rw (at_here i) (ground arith)
  none_available i (s ∷ ss) h (suc k) c g =
      rw (at_later i k) (none_available (suc i) ss (ground arith) k c g)

  -- The random selection never falls out of its second loop. It returns a sub-cluster other than the excluded one that
  -- is no black hole and whose weight is not negative; or it fails, and there is no such one.
  pub random_select_exclude-cases :
      (r : ℕ) (subs : List SubCluster)
      → ((i : ℕ) × (s : SubCluster) × (random_select_exclude r exclude subs ≡ selected i)
          × (get_elem? subs i ≡ some s)
          × (may_take_over exclude i s ≡ true))
        ⊎ ((random_select_exclude r exclude subs ≡ no_sub_cluster)
            × ((i : ℕ) (s : SubCluster)
                → get_elem? subs i ≡ some s
                → may_take_over exclude i s ≡ false))
  unfolding random_select_exclude
  random_select_exclude-cases r subs = elim (Bool-cases (count_available exclude 0 subs == 0)) [
    | inl z ↦ inr (
      rw z refl,
      λ i s g. let t = none_available 0 subs (ground arith) i s g in rw (zero-add i) at t,
    )
    | inr nz ↦
        let (k, s, e, g, t) =
          nth_available-found (r % count_available exclude 0 subs) 0 subs
            (mod-lt _ (ground arith)) in
        inl (k, s, rw nz (e ∙ ap selected (zero-add k)), g, rw (zero-add k) at t)
  ]
