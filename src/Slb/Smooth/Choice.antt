-- ===== src/Slb/Smooth/Choice.antt =====
-- `smoothBalance` chooses a backend with the greatest current weight, and moves weight points only.
use mathlib.Core.Path.{ap₂, subst, Σ_path}
use native.Mathlib.Nat.{zero-add}
use bfe.Common.{
  ℕ, zero, suc, ◌+◌, ◌≡◌, refl, ap, sym, ◌∙◌, ◌⊎◌, inl, inr, Bool, true, false, Option, none, some,
  [], ◌∷◌, get_elem?, arith, Option-cases,
}
use bfe.Common.Int.{ℤ, ◌≤ℤ◌, int_laws}
use bfe.Slb.Backends.{BackendRr}
use bfe.Slb.Balancer.{BackendList, ok, err, all_backends_down}
use bfe.Slb.Smooth.{Pick, smooth_loop, charge, smooth_balance, no_pick, of_best, charge_best}
use bfe.Slb.Smooth.Loop.{
  takes_part, total_from, bump_from, Found, NonePart, AtMost, loop_total, loop_bump, loop-Found,
  loop_none, loop-AtMost,
}

charge_best-some :
    (s : Pick) (bs : BackendList) (i : ℕ) → s.best ≡ some i → charge_best s bs ≡ charge s.total i bs
charge_best-some s bs i h = rw h

charge_best-none : (s : Pick) (bs : BackendList) → s.best ≡ none → charge_best s bs ≡ bs
charge_best-none s bs h = rw h

module _ (member : ℕ → Bool) where
  Found-get :
      (i k : ℕ) (bs : BackendList) (j : ℕ) (c : ℤ)
      → Found member i bs j c
      → (n : ℕ) × (b : BackendRr) × (i + n ≡ j)
        × (get_elem? bs n ≡ some b)
        × (takes_part member j b ≡ true)
        × (b.current ≡ c)
  Found-get i k [] j c f = absurd f
  Found-get i k (b ∷ bs) j c (inl (e, t, h)) = (0, b, omega arith, refl, rw (← e) t, h)
  Found-get i k (b ∷ bs) j c (inr f) =
      let (n, b', e, g, t, h) = Found-get (suc i) k bs j c f in (suc n, b', omega arith, g, t, h)

  AtMost-get :
      (i k : ℕ) (bs : BackendList) (c : ℤ) (b : BackendRr)
      → AtMost member i bs c
      → get_elem? bs k ≡ some b
      → takes_part member (i + k) b ≡ true
      → b.current ≤ℤ c
  AtMost-get i k [] c b a g t = cc
  AtMost-get i zero (x ∷ bs) c b a g t = let e : i + 0 ≡ i = omega arith in ground (arith, a.0, e)
  AtMost-get i (suc k) (x ∷ bs) c b a g t =
      let e : i + suc k ≡ suc i + k = omega arith in AtMost-get (suc i) k bs c b a.1 g (rw e at t)

  NonePart-get :
      (i k : ℕ) (bs : BackendList) (b : BackendRr)
      → NonePart member i bs
      → get_elem? bs k ≡ some b
      → takes_part member (i + k) b ≡ false
  NonePart-get i k [] b a g = cc
  NonePart-get i zero (x ∷ bs) b a g = let e : i + 0 ≡ i = omega arith in rw e (ground (arith, a.0))
  NonePart-get i (suc k) (x ∷ bs) b a g =
      let e : i + suc k ≡ suc i + k = omega arith in rw e (NonePart-get (suc i) k bs b a.1 g)

  bump_none : (i : ℕ) (bs : BackendList) → NonePart member i bs → bump_from member i bs ≡ bs
  unfolding bump_from
  bump_none i [] n = refl
  bump_none i (b ∷ bs) n = rw (n.0, bump_none (suc i) bs n.1)

  abbrev ended : BackendList → Pick
  ended bs = (smooth_loop member 0 bs no_pick).1

  of_best-ok : (o : Option ℕ) (i : ℕ) → of_best o ≡ ok i → o ≡ some i
  of_best-ok none i h = cc
  of_best-ok (some j) i h = cc

  of_best-err : (o : Option ℕ) → of_best o ≡ err all_backends_down → o ≡ none
  of_best-err none h = refl
  of_best-err (some j) h = cc

  ended-total : (bs : BackendList) → (ended bs).total ≡ total_from member 0 bs
  ended-total bs = loop_total member 0 bs no_pick ∙ omega int_laws

  chosen :
      (bs : BackendList) (i : ℕ) → (ended bs).best ≡ some i → Found member 0 bs i (ended bs).max
  chosen bs i h = ground (arith, loop-Found member 0 bs no_pick i)

  -- A backend that smooth round robin chooses is in the list and eligible, no other such backend has a
  -- greater current weight, and the call has added its weight to each of these and taken their total from the
  -- chosen one.
  pub smooth_balance-ok :
      (bs bs' : BackendList) (i : ℕ)
      → smooth_balance member bs ≡ (bs', ok i)
      → (b : BackendRr) × (get_elem? bs i ≡ some b)
        × (takes_part member i b ≡ true)
        × ((k : ℕ) (c : BackendRr)
            → get_elem? bs k ≡ some c
            → takes_part member k c ≡ true
            → c.current ≤ℤ b.current)
        × (bs' ≡ charge (total_from member 0 bs) i (bump_from member 0 bs))
  unfolding smooth_balance
  smooth_balance-ok bs bs' i h =
      let best : (ended bs).best ≡ some i = of_best-ok (ended bs).best i (ap (λ p. p.1) h) in
      let (n, b, e, g, t, c) = Found-get 0 0 bs i _ (chosen bs i best) in
      let e' : n ≡ i = omega arith in
      let most = (loop-AtMost member 0 bs no_pick).0 in
      (
        b,
        subst (λ p. get_elem? bs p ≡ some b) e' g,
        t,
        λ k x gx tx. rw c (AtMost-get 0 k bs _ x most gx (rw (zero-add k) tx)),
        sym (ap (λ p. p.0) h)
            ∙ charge_best-some (ended bs) _ i best
            ∙ ap₂ (λ t l. charge t i l) (ended-total bs) (loop_bump member 0 bs no_pick),
      )

  -- A call of smooth round robin that fails has changed nothing, and no backend that it was called
  -- with is eligible.
  pub smooth_balance-err :
      (bs bs' : BackendList)
      → smooth_balance member bs ≡ (bs', err all_backends_down)
      → (bs' ≡ bs)
        × ((k : ℕ) (c : BackendRr) → get_elem? bs k ≡ some c → takes_part member k c ≡ false)
  unfolding smooth_balance
  smooth_balance-err bs bs' h =
      let best : (ended bs).best ≡ none = of_best-err (ended bs).best (ap (λ p. p.1) h) in
      let idle = (loop_none member 0 bs no_pick best).1 in
      (
        sym (ap (λ p. p.0) h)
            ∙ charge_best-none (ended bs) _ best
            ∙ loop_bump member 0 bs no_pick
            ∙ bump_none 0 bs idle,
        λ k c g. rw (← zero-add k) (NonePart-get 0 k bs c idle g),
      )

  pub smooth_balance-cases :
      (bs : BackendList)
      → ((i : ℕ) × (bs' : BackendList) × (smooth_balance member bs ≡ (bs', ok i)))
        ⊎ ((bs' : BackendList) × (smooth_balance member bs ≡ (bs', err all_backends_down)))
  unfolding smooth_balance
  smooth_balance-cases bs = elim (Option-cases (ended bs).best) [
    | inl e ↦ inr ((smooth_balance member bs).0, Σ_path refl (ap of_best e))
    | inr (i, e) ↦ inl (i, (smooth_balance member bs).0, Σ_path refl (ap of_best e))
  ]
