-- ===== src/Slb/Smooth/Share.antt =====
-- What smooth weighted round robin promises: shares by weight, over any number of requests.
use mathlib.Core.Path.{subst}
use bfe.Common.{
  ℕ, zero, suc, ◌+◌, ◌*◌, ◌≤◌, ◌<◌, ◌≡◌, refl, ap, sym, ◌∙◌, ◌⊎◌, inl, inr, true, false, some, [],
  ◌∷◌, get_elem?, arith, Bool-cases,
}
use bfe.Common.Int.{pos, pos_part, neg_part, ◌+ℤ◌, eq_of_parts, int_laws}
use bfe.Slb.Backends.{BackendRr}
use bfe.Slb.Balancer.{BackendList, is_eligible, reset_weight}
use bfe.Slb.Reset.{get-reset, get-reset_back}
use bfe.Slb.Smooth.Rounds.{smooth_rounds, count, current_sum}
use bfe.Slb.Smooth.Fair.{weight_sum, eligible_weight, Lower, IsSmooth}
use bfe.Slb.Smooth.Tracked.{Tracked, smooth_rounds-Tracked, smooth_rounds_back}

weight_sum-reset : (bs : BackendList) → weight_sum (reset_weight bs) ≡ weight_sum bs
unfolding weight_sum reset_weight
weight_sum-reset [] = refl
weight_sum-reset (b ∷ bs) = ground (arith, weight_sum-reset bs)

current_sum-reset : (bs : BackendList) → current_sum (reset_weight bs) ≡ pos (weight_sum bs)
unfolding weight_sum reset_weight current_sum ◌+ℤ◌
current_sum-reset [] = refl
current_sum-reset (b ∷ bs) = ground (arith, current_sum-reset bs)

weight-le-sum :
    (bs : BackendList) (i : ℕ) (b : BackendRr)
    → get_elem? bs i ≡ some b
    → is_eligible b ≡ true
    → pos_part b.weight ≤ weight_sum bs
unfolding weight_sum
weight-le-sum [] i b g e = ground arith
weight-le-sum (x ∷ bs) zero b g e = ground arith
weight-le-sum (x ∷ bs) (suc i) b g e = ground (arith, weight-le-sum bs i b g e)

Lower-reset : (w : ℕ) (bs : BackendList) → 0 < w → weight_sum bs ≤ w → Lower w (reset_weight bs)
unfolding weight_sum reset_weight
Lower-reset w [] p h = tt
Lower-reset w (b ∷ bs) p h =
    (λ e. omega (arith, eligible_weight b e), Lower-reset w bs p (ground arith))

reset-IsSmooth : (bs : BackendList) → 0 < weight_sum bs → IsSmooth (weight_sum bs) (reset_weight bs)
reset-IsSmooth bs p = record {
  total = weight_sum-reset bs;
  sum = current_sum-reset bs;
  lower = Lower-reset _ bs p (omega arith);
}

Lower-get :
    (w : ℕ) (bs : BackendList) (i : ℕ) (b : BackendRr)
    → Lower w bs
    → get_elem? bs i ≡ some b
    → is_eligible b ≡ true
    → pos_part b.weight + 1 + neg_part b.current ≤ pos_part b.current + w
Lower-get w [] i b l g e = ground arith
Lower-get w (x ∷ bs) zero b l g e = ground (arith, l.0)
Lower-get w (x ∷ bs) (suc i) b l g e = Lower-get w bs i b l.1 g e

module _ (bs : BackendList) (i : ℕ) (b : BackendRr) (there : get_elem? bs i ≡ some b)
    (eligible : is_eligible b ≡ true) where
  weight_sum_pos : 0 < weight_sum bs
  weight_sum_pos = omega (arith, eligible_weight b eligible, weight-le-sum bs i b there eligible)

  tracked :
      (n : ℕ)
      → Tracked
          (weight_sum bs)
          n
          i
          (record b { current = b.weight })
          (smooth_rounds n (reset_weight bs))
        × IsSmooth (weight_sum bs) (smooth_rounds n (reset_weight bs)).0
  tracked n =
      smooth_rounds-Tracked (weight_sum bs) n (reset_weight bs) i _ weight_sum_pos
        (reset-IsSmooth bs weight_sum_pos) (get-reset bs i b there) eligible

  -- After any number n of requests to a list whose current weights have been reset, with no other
  -- event in between, an eligible backend of weight w, out of a total W, has been chosen less often
  -- than n * w / W + 1 times: it is never a whole request ahead of its share.
  pub smooth_share :
      (n : ℕ)
      → weight_sum bs * count i (smooth_rounds n (reset_weight bs)).1
        < n * pos_part b.weight + weight_sum bs
  smooth_share n =
      let (t, s) = tracked n in
      let e : is_eligible t.now ≡ true = ap is_eligible t.same ∙ eligible in
      omega (
        arith,
        t.ledger,
        ap (λ (x : BackendRr). pos_part x.weight) t.same,
        eligible_weight b eligible,
        Lower-get (weight_sum bs) _ i t.now s.lower t.there e,
      )

  -- The backend's entry in the list after as many requests as the weights add up to.
  cycled :
      Tracked
        (weight_sum bs)
        (weight_sum bs)
        i
        (record b { current = b.weight })
        (smooth_rounds (weight_sum bs) (reset_weight bs))
  cycled = (tracked (weight_sum bs)).0

  cycle_at_most : count i (smooth_rounds (weight_sum bs) (reset_weight bs)).1 ≤ pos_part b.weight
  cycle_at_most = grind (arith, smooth_share (weight_sum bs), weight_sum_pos)

  cycle_at_least : pos_part b.weight + neg_part cycled.now.current ≤ pos_part cycled.now.current
  cycle_at_least = grind (arith, cycled.ledger, cycle_at_most, eligible_weight b eligible)

-- Every current weight of an eligible backend is at least its weight.
abbrev AtLeast : BackendList → Type 0
AtLeast bs =
    (k : ℕ) (c : BackendRr)
    → get_elem? bs k ≡ some c
    → is_eligible c ≡ true
    → pos_part c.weight + neg_part c.current ≤ pos_part c.current

sum-AtLeast :
    (bs : BackendList)
    → AtLeast bs
    → weight_sum bs + neg_part (current_sum bs) ≤ pos_part (current_sum bs)
unfolding weight_sum current_sum
sum-AtLeast [] h = omega arith
sum-AtLeast (b ∷ bs) h = elim (Bool-cases (is_eligible b)) [
  | inl e ↦ rw e (omega (int_laws, h 0 b refl e, sum-AtLeast bs (λ k. h (suc k))))
  | inr e ↦ rw e (sum-AtLeast bs (λ k. h (suc k)))
]

-- If they add up to no more than the weights, each is its weight.
equal_if_sum :
    (bs : BackendList) (k : ℕ) (c : BackendRr)
    → AtLeast bs
    → pos_part (current_sum bs) ≤ weight_sum bs + neg_part (current_sum bs)
    → get_elem? bs k ≡ some c
    → is_eligible c ≡ true
    → pos_part c.current ≤ pos_part c.weight + neg_part c.current
unfolding weight_sum current_sum
equal_if_sum [] k c h s g e = ground arith
equal_if_sum (b ∷ bs) zero c h s g e =
    let same : b ≡ c = cc in
    let eb : is_eligible b ≡ true = rw same e in
    let s' = rw eb at s in rw (← same) (omega (int_laws, s', sum-AtLeast bs (λ k. h (suc k))))
equal_if_sum (b ∷ bs) (suc k) c h s g e =
    equal_if_sum bs k c (λ k. h (suc k)) (tail_sum (Bool-cases (is_eligible b))) g e
  where
    tail_sum :
        (is_eligible b ≡ true) ⊎ (is_eligible b ≡ false)
        → pos_part (current_sum bs) ≤ weight_sum bs + neg_part (current_sum bs)
    tail_sum (inl eb) = let s' = rw eb at s in omega (int_laws, s', h 0 b refl eb)
    tail_sum (inr eb) = rw eb at s

cycle-AtLeast :
    (bs : BackendList)
    → 0 < weight_sum bs
    → AtLeast (smooth_rounds (weight_sum bs) (reset_weight bs)).0
cycle-AtLeast bs p k c g e =
    let (r, gr, er) = smooth_rounds_back _ _ _ k c p (reset-IsSmooth bs p) g in
    let (b, gb, eb, _) = get-reset_back bs k r gr in
    let eligible : is_eligible b ≡ true = eb ∙ er ∙ e in
    let t = cycled bs k b gb eligible in
    let same : t.now ≡ c = ground (arith, t.there) in
    subst (λ (x : BackendRr). pos_part x.weight + neg_part x.current ≤ pos_part x.current) same
      (omega (
        arith,
        cycle_at_least bs k b gb eligible,
        ap (λ (x : BackendRr). pos_part x.weight) t.same,
      ))

-- As many requests as the weights add up to, to a list whose current weights have been reset, with
-- no other event in between, choose every eligible backend exactly as often as its weight says, and
-- leave its entry as it was.
pub smooth_cycle :
    (bs : BackendList) (i : ℕ) (b : BackendRr)
    → get_elem? bs i ≡ some b
    → is_eligible b ≡ true
    → (count i (smooth_rounds (weight_sum bs) (reset_weight bs)).1 ≡ pos_part b.weight)
      × (get_elem? (smooth_rounds (weight_sum bs) (reset_weight bs)).0 i
          ≡ get_elem? (reset_weight bs) i)
smooth_cycle bs i b g e =
    let p = weight_sum_pos bs i b g e in
    let t = cycled bs i b g e in
    let s = (tracked bs i b g e (weight_sum bs)).1 in
    let low = cycle-AtLeast bs p in
    let w = ap (λ (x : BackendRr). pos_part x.weight) t.same in
    let eq =
      equal_if_sum _ i t.now low (omega (arith, s.total, ap pos_part s.sum)) t.there
        (ap is_eligible t.same ∙ e) in
    let back : t.now.current ≡ b.weight =
      eq_of_parts _ _ (omega (arith, eq, w, cycle_at_least bs i b g e, eligible_weight b e)) in
    (
      grind (arith, t.ledger, ap pos_part back, ap neg_part back, eligible_weight b e, p),
      t.there
          ∙ ap some (t.same ∙ ap (λ z. record b { current = z }) back)
          ∙ sym (get-reset bs i b g),
    )
