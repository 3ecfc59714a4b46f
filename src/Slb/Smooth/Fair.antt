-- ===== src/Slb/Smooth/Fair.antt =====
-- Why smooth weighted round robin is smooth: the current weights always add up to the total of the
-- weights, and none falls to more than the total below its weight.
use mathlib.Core.Path.{}
use native.Mathlib.Decide.{dec_le}
use bfe.Common.{
  ℕ, zero, suc, ◌+◌, ◌≤◌, ◌<◌, ◌≡◌, refl, ap, sym, ◌∙◌, inl, inr, true, false, none, some, [], ◌∷◌,
  get_elem?, arith, if◌then◌else◌, ◌==◌, Bool-cases,
}
use bfe.Common.Int.{pos, pos_part, neg_part, ◌+ℤ◌, ◌≤ℤ◌, +ℤ_parts, -ℤ_parts, int_laws}
use bfe.Slb.Backends.{BackendRr}
use bfe.Slb.Balancer.{BackendList, ok, is_eligible}
use bfe.Slb.Smooth.{charge, smooth_balance}
use bfe.Slb.Smooth.Loop.{total_from, bump_from}
use bfe.Slb.Smooth.Choice.{smooth_balance-ok, smooth_balance-err, smooth_balance-cases}
use bfe.Slb.Smooth.Rounds.{
  all, current_sum, charged, bumped, get-settle, get-settle-none, total-settle, sum-settle,
}

-- The weights of the eligible backends, which are positive, added up.
unfoldable pub weight_sum : BackendList → ℕ
weight_sum [] = 0
weight_sum (b ∷ bs) =
    let rest = weight_sum bs in if is_eligible b then pos_part b.weight + rest else rest

pub total_from-weight_sum : (i : ℕ) (bs : BackendList) → total_from all i bs ≡ pos (weight_sum bs)
unfolding total_from weight_sum ◌+ℤ◌
total_from-weight_sum i [] = refl
total_from-weight_sum i (b ∷ bs) = ground (arith, total_from-weight_sum (suc i) bs)

pub eligible_weight :
    (b : BackendRr) → is_eligible b ≡ true → (neg_part b.weight ≡ 0) × (0 < pos_part b.weight)
eligible_weight b h = ground arith

abbrev pub Lower : ℕ → BackendList → Type 0
Lower w [] = Unit
Lower w (b ∷ bs) =
    (is_eligible b ≡ true → pos_part b.weight + 1 + neg_part b.current ≤ pos_part b.current + w)
    × Lower w bs

pub record IsSmooth (w : ℕ) (bs : BackendList) : Type 0 where
  pub total : weight_sum bs ≡ w
  pub sum : current_sum bs ≡ pos w
  pub lower : Lower w bs

-- What one request does to a lower bound, at a backend that is not chosen and at the chosen one.
pub lower_bumped :
    (w : ℕ) (b : BackendRr)
    → (is_eligible b ≡ true → pos_part b.weight + 1 + neg_part b.current ≤ pos_part b.current + w)
    → is_eligible (bumped b) ≡ true
    → pos_part (bumped b).weight + 1 + neg_part (bumped b).current ≤ pos_part (bumped b).current + w
lower_bumped w b h e = elim (Bool-cases (is_eligible b)) [
  | inl k ↦ rw k (omega (arith, h k, eligible_weight b k, +ℤ_parts b.current b.weight))
  | inr k ↦ ground arith
]

pub lower_charged :
    (w : ℕ) (b : BackendRr)
    → 1 + neg_part b.current ≤ pos_part b.current
    → is_eligible b ≡ true
    → pos_part (charged true (pos w) (bumped b)).weight
        + 1
        + neg_part (charged true (pos w) (bumped b)).current
      ≤ pos_part (charged true (pos w) (bumped b)).current + w
lower_charged w b p k = rw k (
    omega (
      arith,
      eligible_weight b k,
      +ℤ_parts b.current b.weight,
      -ℤ_parts (b.current +ℤ b.weight) (pos w),
    ))

pub Lower-bump : (w i : ℕ) (bs : BackendList) → Lower w bs → Lower w (bump_from all i bs)
unfolding bump_from
Lower-bump w i [] h = tt
Lower-bump w i (b ∷ bs) h = (lower_bumped w b h.0, Lower-bump w (suc i) bs h.1)

pub Lower-settle :
    (w i j : ℕ) (bs : BackendList) (b : BackendRr)
    → get_elem? bs j ≡ some b
    → is_eligible b ≡ true
    → 1 + neg_part b.current ≤ pos_part b.current
    → Lower w bs
    → Lower w (charge (pos w) j (bump_from all i bs))
unfolding bump_from charge
Lower-settle w i j [] b g t p h = tt
Lower-settle w i zero (x ∷ bs) b g t p h =
    let e : x ≡ b = cc in (λ _. lower_charged w x (rw e p) (rw e t), Lower-bump w (suc i) bs h.1)
Lower-settle w i (suc j) (x ∷ bs) b g t p h =
    (lower_bumped w x h.0, Lower-settle w (suc i) j bs b g t p h.1)

-- A sum of numbers of which none is positive is not positive.
pub sum_nonpos :
    (bs : BackendList)
    → ((k : ℕ) (c : BackendRr)
        → get_elem? bs k ≡ some c
        → is_eligible c ≡ true
        → pos_part c.current ≤ neg_part c.current)
    → pos_part (current_sum bs) ≤ neg_part (current_sum bs)
unfolding current_sum
sum_nonpos [] h = omega arith
sum_nonpos (b ∷ bs) h = elim (Bool-cases (is_eligible b)) [
  | inl e ↦ rw e (omega (int_laws, h 0 b refl e, sum_nonpos bs (λ k. h (suc k))))
  | inr e ↦ rw e (sum_nonpos bs (λ k. h (suc k)))
]

pub sum_zero :
    (bs : BackendList)
    → ((k : ℕ) (c : BackendRr) → get_elem? bs k ≡ some c → is_eligible c ≡ false)
    → weight_sum bs ≡ 0
unfolding weight_sum
sum_zero [] h = refl
sum_zero (b ∷ bs) h = rw (h 0 b refl) (sum_zero bs (λ k. h (suc k)))

-- The greatest current weight is positive, as their sum is.
pub max_positive :
    (w : ℕ) (bs : BackendList) (b : BackendRr)
    → 0 < w
    → current_sum bs ≡ pos w
    → ((k : ℕ) (c : BackendRr)
        → get_elem? bs k ≡ some c
        → is_eligible c ≡ true
        → c.current ≤ℤ b.current)
    → 1 + neg_part b.current ≤ pos_part b.current
max_positive w bs b h s most = elim (dec_le (pos_part b.current) (neg_part b.current)) [
  | yes low ↦ absurd (
      omega (
        arith,
        sum_nonpos bs (λ k c g e. omega (arith, most k c g e)),
        ap pos_part s,
        ap neg_part s,
      ))
  | no high ↦ omega arith
]

-- One request on a smooth list, seen from the backend at position k.
pub record Round (w : ℕ) (bs bs' : BackendList) (j : ℕ) : Type 0 where
  pub picks : smooth_balance all bs ≡ (bs', ok j)
  pub still : IsSmooth w bs'
  pub settled :
      (k : ℕ) (b : BackendRr)
      → get_elem? bs k ≡ some b
      → get_elem? bs' k ≡ some (charged (k == j) (pos w) (bumped b))
  pub absent : (k : ℕ) → get_elem? bs k ≡ none → get_elem? bs' k ≡ none

pub smooth_pick :
    (w : ℕ) (bs bs' : BackendList) (j : ℕ)
    → 0 < w
    → IsSmooth w bs
    → smooth_balance all bs ≡ (bs', ok j)
    → Round w bs bs' j
smooth_pick w bs bs' j h s r =
    let (b, g, t, most, e) = smooth_balance-ok all bs bs' j r in
    let tot : total_from all 0 bs ≡ pos w = total_from-weight_sum 0 bs ∙ ap pos s.total in
    let e' : bs' ≡ charge (pos w) j (bump_from all 0 bs) =
      e ∙ ap (λ v. charge v j (bump_from all 0 bs)) tot in
    let up : 1 + neg_part b.current ≤ pos_part b.current = max_positive w bs b h s.sum most in
    record {
      picks = r;
      still = rw e' (record {
        total = ap pos_part (sym (total_from-weight_sum 0 _) ∙ total-settle (pos w) j bs ∙ tot);
        sum =
            ap (λ v. current_sum (charge v j (bump_from all 0 bs))) (sym tot)
            ∙ sum-settle j bs b g t
            ∙ s.sum;
        lower = Lower-settle w 0 j bs b g t up s.lower;
      });
      settled = λ k x gx. rw e' (get-settle (pos w) j k bs x gx);
      absent = λ k gx. rw e' (get-settle-none (pos w) j 0 k bs gx);
    }

-- A smooth list with something to choose from serves every request, and stays smooth.
pub smooth-Round :
    (w : ℕ) (bs : BackendList)
    → 0 < w
    → IsSmooth w bs
    → (j : ℕ) × (bs' : BackendList) × Round w bs bs' j
smooth-Round w bs h s = elim (smooth_balance-cases all bs) [
  | inl (j, bs', r) ↦ (j, bs', smooth_pick w bs bs' j h s r)
  | inr (bs', r) ↦ absurd (omega (arith, s.total, sum_zero bs (smooth_balance-err all bs bs' r).1))
]
