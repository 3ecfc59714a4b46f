-- ===== src/Slb/Reset.antt =====
-- `ResetWeight`, entry by entry.
use bfe.Common.{
  ℕ, zero, suc, ◌≡◌, refl, inl, inr, none, some, [], ◌∷◌, arith, get_elem?, Option-cases,
}
use bfe.Slb.Backends.{BackendRr}
use bfe.Slb.Balancer.{BackendList, is_eligible, reset_weight}

pub get-reset :
    (bs : BackendList) (i : ℕ) (b : BackendRr)
    → get_elem? bs i ≡ some b
    → get_elem? (reset_weight bs) i ≡ some (record b { current = b.weight })
unfolding reset_weight
get-reset [] i b g = ground arith
get-reset (x ∷ bs) zero b g = ground arith
get-reset (x ∷ bs) (suc i) b g = get-reset bs i b g

pub get-reset-none :
    (bs : BackendList) (i : ℕ) → get_elem? bs i ≡ none → get_elem? (reset_weight bs) i ≡ none
unfolding reset_weight
get-reset-none [] i g = refl
get-reset-none (x ∷ bs) zero g = ground arith
get-reset-none (x ∷ bs) (suc i) g = get-reset-none bs i g

pub get-reset_back :
    (bs : BackendList) (k : ℕ) (c : BackendRr)
    → get_elem? (reset_weight bs) k ≡ some c
    → (b : BackendRr) × (get_elem? bs k ≡ some b)
      × (is_eligible b ≡ is_eligible c)
      × (b.backend.avail ≡ c.backend.avail)
get-reset_back bs k c g = elim (Option-cases (get_elem? bs k)) [
  | inl gone ↦ absurd (ground (arith, get-reset-none bs k gone))
  | inr (b, there) ↦
      (b, there, ground (arith, get-reset bs k b there), ground (arith, get-reset bs k b there))
]
