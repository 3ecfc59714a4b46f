-- ===== src/Slb/LeastConns/Ratio.antt =====
-- The fractions that `compLCWeight` compares: connections for a weight.
use mathlib.Core.Path.{subst}
use native.Mathlib.Nat.{mul-le-mul_right, le_of_mul-le-mul_right}
use bfe.Common.{
  ℕ, ◌*◌, ◌≤◌, ◌<◌, ◌≡◌, refl, sym, ◌⊎◌, true, false, if◌then◌else◌, ltb, ◌==◌, arith, Bool-cases,
  inl, inr,
}
use bfe.Common.Int.{ℤ, pos, negsuc, pos_part, neg_part, ◌-ℤ◌, ltb_ℤ, eqb_ℤ}
use bfe.Slb.Backends.{}
use bfe.Slb.Balancer.{}
use bfe.Slb.SlowStart.{mul-pos}
use bfe.Slb.Smooth.Fair.{}
use bfe.Slb.LeastConns.{comp_lc_weight}
use bfe.Slb.LeastConns.Choice.{}

-- c / w is at most d / v, for positive w and v.
abbrev pub AtMost : ℕ → ℕ → ℕ → ℕ → Type 0
AtMost c w d v = c * v ≤ d * w

pub AtMost-trans : (c w d v e u : ℕ) → 0 < v → AtMost c w d v → AtMost d v e u → AtMost c w e u
AtMost-trans c w d v e u p h k =
    let left : c * v * u ≤ d * w * u = mul-le-mul_right u h in
    let right : d * u * w ≤ e * v * w = mul-le-mul_right w k in
    let both : c * u * v ≤ e * w * v = omega (arith, left, right) in le_of_mul-le-mul_right both p

sign_of : ℕ → ℕ → ℤ
sign_of a b = if ltb b a then pos 1 else if a == b then pos 0 else negsuc 0

comp_lc_weight-sign :
    (c w d v : ℕ) → comp_lc_weight (pos c) (pos w) (pos d) (pos v) ≡ sign_of (c * v) (d * w)
unfolding comp_lc_weight sign_of ◌-ℤ◌
comp_lc_weight-sign c w d v = rw (mul-pos c v, mul-pos d w) (ground arith)

-- The three ways in which a comparison may end.
abbrev pub Compared : ℤ → ℕ → ℕ → Type 0
Compared ret a b =
    ((ltb_ℤ (pos 0) ret ≡ true) × (b < a))
    ⊎ (((ltb_ℤ (pos 0) ret ≡ false) × (eqb_ℤ ret (pos 0) ≡ true) × (a ≡ b))
        ⊎ ((ltb_ℤ (pos 0) ret ≡ false) × (eqb_ℤ ret (pos 0) ≡ false) × (a < b)))

sign_of-Compared : (a b : ℕ) → Compared (sign_of a b) a b
unfolding sign_of
sign_of-Compared a b = elim (Bool-cases (ltb b a)) [
  | inl l ↦ rw l (inl (refl, ground arith))
  | inr l ↦ elim (Bool-cases (a == b)) [
    | inl e ↦ rw (l, e) (inr (inl (refl, refl, ground arith)))
    | inr e ↦ rw (l, e) (inr (inr (refl, refl, ground arith)))
  ]
]

pub comp_lc_weight-Compared :
    (c w d v : ℤ)
    → neg_part c ≡ 0
    → neg_part w ≡ 0
    → neg_part d ≡ 0
    → neg_part v ≡ 0
    → Compared (comp_lc_weight c w d v) (pos_part c * pos_part v) (pos_part d * pos_part w)
comp_lc_weight-Compared (pos c) (pos w) (pos d) (pos v) p q r s =
    subst (λ z. Compared z (c * v) (d * w)) (sym (comp_lc_weight-sign c w d v))
      (sign_of-Compared (c * v) (d * w))
comp_lc_weight-Compared (negsuc c) w d v p q r s = absurd (omega (arith, p))
comp_lc_weight-Compared (pos c) (negsuc w) d v p q r s = absurd (omega (arith, q))
comp_lc_weight-Compared (pos c) (pos w) (negsuc d) v p q r s = absurd (omega (arith, r))
comp_lc_weight-Compared (pos c) (pos w) (pos d) (negsuc v) p q r s = absurd (omega (arith, s))
