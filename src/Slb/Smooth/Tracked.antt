-- ===== src/Slb/Smooth/Tracked.antt =====
-- One backend through many requests: how often it is chosen, and what is left of its weight.
use mathlib.Core.Path.{subst}
use native.Mathlib.Decide.{}
use bfe.Common.{
  ℕ, zero, suc, ◌+◌, ◌*◌, ◌<◌, ◌≡◌, refl, ap, sym, ◌∙◌, inl, inr, Bool, true, false, some, List,
  ◌∷◌, get_elem?, arith, if◌then◌else◌, ◌==◌, Bool-cases, Option-cases,
}
use bfe.Common.Int.{ℤ, pos, pos_part, neg_part, ◌+ℤ◌, +ℤ_parts, -ℤ_parts}
use bfe.Slb.Backends.{BackendRr}
use bfe.Slb.Balancer.{BackendList, ok, is_eligible}
use bfe.Slb.Smooth.{smooth_balance}
use bfe.Slb.Smooth.Loop.{}
use bfe.Slb.Smooth.Choice.{}
use bfe.Slb.Smooth.Rounds.{all, log, smooth_rounds, count, charged, bumped}
use bfe.Slb.Smooth.Fair.{eligible_weight, IsSmooth, smooth-Round}

-- What n requests leave of the backend at position i.
pub record Tracked (w n i : ℕ) (b : BackendRr) (after : BackendList × List ℕ) : Type 0 where
  pub now : BackendRr
  pub there : get_elem? after.0 i ≡ some now
  pub same : now ≡ record b { current = now.current }
  pub ledger :
      pos_part now.current + neg_part b.current + w * count i after.1
      ≡ neg_part now.current + pos_part b.current + n * pos_part b.weight

module _ (hit : Bool) (w : ℕ) (b : BackendRr) (e : is_eligible b ≡ true) where
  settled_eligible : is_eligible (charged hit (pos w) (bumped b)) ≡ true
  settled_eligible = ground arith

  settled_weight : (charged hit (pos w) (bumped b)).weight ≡ b.weight
  settled_weight = ground arith

  settled_same :
      (c : ℤ) → record (charged hit (pos w) (bumped b)) { current = c } ≡ record b { current = c }
  settled_same c = ground arith

settled_current :
    (hit : Bool) (w : ℕ) (b : BackendRr)
    → is_eligible b ≡ true
    → pos_part (charged hit (pos w) (bumped b)).current
        + neg_part b.current
        + (if hit then w else 0)
      ≡ neg_part (charged hit (pos w) (bumped b)).current + pos_part b.current + pos_part b.weight
settled_current true w b e = rw e (
    omega (
      arith,
      eligible_weight b e,
      +ℤ_parts b.current b.weight,
      -ℤ_parts (b.current +ℤ b.weight) (pos w),
    ))
settled_current false w b e = rw e (omega (arith, eligible_weight b e, +ℤ_parts b.current b.weight))

count-cons :
    (i j : ℕ) (js : List ℕ) (w : ℕ)
    → w * count i (j ∷ js) ≡ w * count i js + (if i == j then w else 0)
unfolding count
count-cons i j js w = elim (Bool-cases (i == j)) [
  | inl k ↦ rw k (omega arith)
  | inr k ↦ rw k (omega arith)
]

smooth_rounds-suc :
    (n : ℕ) (bs bs' : BackendList) (j : ℕ)
    → smooth_balance all bs ≡ (bs', ok j)
    → smooth_rounds (suc n) bs ≡ ((smooth_rounds n bs').0, j ∷ (smooth_rounds n bs').1)
unfolding smooth_rounds
smooth_rounds-suc n bs bs' j h =
    ap {B = BackendList × List ℕ} (λ p. ((smooth_rounds n p.0).0, log p.1 (smooth_rounds n p.0).1))
      h

-- The list stays smooth, every request is served, and the current weight of an eligible backend is
-- what it was, with its weight added for each request and the total taken off for each time that it
-- was chosen.
pub smooth_rounds-Tracked :
    (w n : ℕ) (bs : BackendList) (i : ℕ) (b : BackendRr)
    → 0 < w
    → IsSmooth w bs
    → get_elem? bs i ≡ some b
    → is_eligible b ≡ true
    → Tracked w n i b (smooth_rounds n bs) × IsSmooth w (smooth_rounds n bs).0
unfolding smooth_rounds count
smooth_rounds-Tracked w zero bs i b h s g e =
    (record { now = b; there = g; same = refl; ledger = omega arith }, s)
smooth_rounds-Tracked w (suc n) bs i b h s g e =
    let (j, bs', r) = smooth-Round w bs h s in
    let b' : BackendRr = charged (i == j) (pos w) (bumped b) in
    let (t, s') =
      smooth_rounds-Tracked w n bs' i b' h r.still (r.settled i b g)
        (settled_eligible (i == j) w b e) in
    let q = smooth_rounds n bs' in
    subst (λ p. Tracked w (suc n) i b p × IsSmooth w p.0)
      (sym (smooth_rounds-suc n bs bs' j r.picks))
      (
        record {
          now = t.now;
          there = t.there;
          same = t.same ∙ settled_same (i == j) w b e t.now.current;
          ledger = omega (
            arith,
            t.ledger,
            settled_current (i == j) w b e,
            ap (λ z. n * pos_part z) (settled_weight (i == j) w b e),
            count-cons i j q.1 w,
          );
        },
        s',
      )

-- Every backend of the list after n requests was in the list before, as eligible as now.
pub smooth_rounds_back :
    (w n : ℕ) (bs : BackendList) (k : ℕ) (c : BackendRr)
    → 0 < w
    → IsSmooth w bs
    → get_elem? (smooth_rounds n bs).0 k ≡ some c
    → (b : BackendRr) × (get_elem? bs k ≡ some b) × (is_eligible b ≡ is_eligible c)
unfolding smooth_rounds
smooth_rounds_back w zero bs k c h s g = (c, g, refl)
smooth_rounds_back w (suc n) bs k c h s g =
    let (j, bs', r) = smooth-Round w bs h s in
    let (b', g', e') = smooth_rounds_back w n bs' k c h r.still (rw r.picks at g) in
    elim (Option-cases (get_elem? bs k)) [
      | inl gone ↦ absurd (ground (arith, r.absent k gone))
      | inr (b, there) ↦ (b, there, ground (arith, r.settled k b there))
    ]
