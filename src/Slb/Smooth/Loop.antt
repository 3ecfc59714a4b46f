-- ===== src/Slb/Smooth/Loop.antt =====
-- The loop of `smoothBalance`: what it adds up, what it updates, and which backend it ends with.
use bfe.Common.{
  ℕ, suc, ◌≡◌, refl, ap, ◌≢◌, ◌⊎◌, inl, inr, Bool, true, false, ◌&&◌, none, some, [], ◌∷◌,
  if◌then◌else◌, arith, Bool-cases, ◌∙◌,
}
use bfe.Common.Int.{ℤ, pos, ◌+ℤ◌, ◌≤ℤ◌, int_laws, +ℤ_assoc}
use bfe.Slb.Backends.{BackendRr}
use bfe.Slb.Balancer.{BackendList, is_eligible}
use bfe.Slb.Smooth.{Pick, consider, bump, smooth_loop}

-- In the list that the loop runs over, and eligible.
abbrev pub takes_part : (ℕ → Bool) → ℕ → BackendRr → Bool
takes_part member i b = member i && is_eligible b

-- The weight points to distribute among the backends that take part.
unfoldable pub total_from : (ℕ → Bool) → ℕ → BackendList → ℤ
total_from member i [] = pos 0
total_from member i (b ∷ bs) =
    let rest = total_from member (suc i) bs in
    if takes_part member i b then b.weight +ℤ rest else rest

unfoldable pub bump_from : (ℕ → Bool) → ℕ → BackendList → BackendList
bump_from member i [] = []
bump_from member i (b ∷ bs) =
    (if takes_part member i b then bump b else b) ∷ bump_from member (suc i) bs

consider-total : (i : ℕ) (b : BackendRr) (s : Pick) → (consider i b s).total ≡ s.total +ℤ b.weight
unfolding consider
consider-total i b s = ground arith

module _ (member : ℕ → Bool) where
  pub loop_total :
      (i : ℕ) (bs : BackendList) (s : Pick)
      → (smooth_loop member i bs s).1.total ≡ s.total +ℤ total_from member i bs
  unfolding smooth_loop total_from
  loop_total i [] s = omega int_laws
  loop_total i (b ∷ bs) s = elim (Bool-cases (takes_part member i b)) [
    | inl h ↦
        rw h (loop_total (suc i) bs (consider i b s) ∙ rw (consider-total i b s) (+ℤ_assoc _ _ _))
    | inr h ↦ rw h (loop_total (suc i) bs s)
  ]

  pub loop_bump :
      (i : ℕ) (bs : BackendList) (s : Pick) → (smooth_loop member i bs s).0 ≡ bump_from member i bs
  unfolding smooth_loop bump_from
  loop_bump i [] s = refl
  loop_bump i (b ∷ bs) s =
      ap (λ r. (if takes_part member i b then bump b else b) ∷ r) (loop_bump (suc i) bs _)

  -- Position j, counted from i, holds a backend that takes part and has the weight c.
  abbrev pub Found : ℕ → BackendList → ℕ → ℤ → Type 0
  Found i [] j c = ⊥
  Found i (b ∷ bs) j c =
      ((i ≡ j) × (takes_part member i b ≡ true) × (b.current ≡ c)) ⊎ Found (suc i) bs j c

  abbrev pub NonePart : ℕ → BackendList → Type 0
  NonePart i [] = Unit
  NonePart i (b ∷ bs) = (takes_part member i b ≡ false) × NonePart (suc i) bs

  -- No backend that takes part has a greater current weight.
  abbrev pub AtMost : ℕ → BackendList → ℤ → Type 0
  AtMost i [] c = Unit
  AtMost i (b ∷ bs) c = (takes_part member i b ≡ true → b.current ≤ℤ c) × AtMost (suc i) bs c

  pub loop-Found :
      (i : ℕ) (bs : BackendList) (s : Pick) (j : ℕ)
      → (smooth_loop member i bs s).1.best ≡ some j
      → ((s.best ≡ some j) × (s.max ≡ (smooth_loop member i bs s).1.max))
        ⊎ Found i bs j (smooth_loop member i bs s).1.max
  unfolding smooth_loop consider
  loop-Found i [] s j h = inl (h, refl)
  loop-Found i (b ∷ bs) s j h =
      ground (arith, loop-Found (suc i) bs (if takes_part member i b then consider i b s else s) j)

  pub loop_none :
      (i : ℕ) (bs : BackendList) (s : Pick)
      → (smooth_loop member i bs s).1.best ≡ none
      → (s.best ≡ none) × NonePart i bs
  unfolding smooth_loop consider
  loop_none i [] s h = (h, tt)
  loop_none i (b ∷ bs) s h =
      ground (arith, loop_none (suc i) bs (if takes_part member i b then consider i b s else s))

  pub loop-AtMost :
      (i : ℕ) (bs : BackendList) (s : Pick)
      → AtMost i bs (smooth_loop member i bs s).1.max
        × (s.best ≢ none → s.max ≤ℤ (smooth_loop member i bs s).1.max)
  unfolding smooth_loop consider
  loop-AtMost i [] s = (tt, λ _. omega arith)
  loop-AtMost i (b ∷ bs) s =
      ground (arith, loop-AtMost (suc i) bs (if takes_part member i b then consider i b s else s))
