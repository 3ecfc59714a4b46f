-- ===== src/Slb/Sticky/Choice.antt =====
-- `stickyBalance` always finds its backend.
use native.Mathlib.Nat.{mod-lt}
use bfe.Common.{
  ℕ, zero, suc, ◌+◌, ◌-◌, ◌%◌, ◌≤◌, ◌<◌, ◌≡◌, refl, sym, ap, ◌∙◌, ◌⊎◌, true, false, none, some,
  List, [], ◌∷◌, Bytes, if◌then◌else◌, ◌==◌, ltb, get_elem?, arith, Bool-cases, inl, inr,
}
use bfe.Common.Int.{pos, pos_part, ◌-ℤ◌, ltb_ℤ, int_laws}
use bfe.Slb.Backends.{BackendRr}
use bfe.Slb.Balancer.{BackendList, Result, ok, err, all_backends_down, panicked, is_eligible}
use bfe.Slb.Smooth.Fair.{eligible_weight}
use bfe.Slb.Sticky.{
  sticky_candidates, total_weight, sticky_pick, sticky_among, get_hash, sticky_select,
}

abbrev AllEligible : List (ℕ × BackendRr) → Type 0
AllEligible [] = Unit
AllEligible (c ∷ cs) = (is_eligible c.1 ≡ true) × AllEligible cs

candidate_sum : List (ℕ × BackendRr) → ℕ
candidate_sum [] = 0
candidate_sum (c ∷ cs) = pos_part c.1.weight + candidate_sum cs

total_weight-sum :
    (cs : List (ℕ × BackendRr)) → AllEligible cs → total_weight cs ≡ pos (candidate_sum cs)
unfolding total_weight candidate_sum
total_weight-sum [] a = refl
total_weight-sum ((i, b) ∷ cs) a =
    rw (total_weight-sum cs a.1) (omega (int_laws, eligible_weight b a.0))

sticky_pick-take :
    (w i : ℕ) (b : BackendRr) (cs : List (ℕ × BackendRr))
    → is_eligible b ≡ true
    → pos_part b.weight ≤ w
    → sticky_pick (pos w) ((i, b) ∷ cs) ≡ sticky_pick (pos (w - pos_part b.weight)) cs
unfolding sticky_pick
sticky_pick-take w i b cs e l =
    let less : pos w -ℤ b.weight ≡ pos (w - pos_part b.weight) =
      omega (int_laws, eligible_weight b e) in
    rw less (ground arith)

sticky_pick-hit :
    (w i : ℕ) (b : BackendRr) (cs : List (ℕ × BackendRr))
    → is_eligible b ≡ true
    → w < pos_part b.weight
    → sticky_pick (pos w) ((i, b) ∷ cs) ≡ ok i
unfolding sticky_pick ◌-ℤ◌
sticky_pick-hit w i b cs e l =
    let neg : ltb_ℤ (pos w -ℤ b.weight) (pos 0) ≡ true = ground arith in rw neg refl

sticky_pick-found :
    (w : ℕ) (cs : List (ℕ × BackendRr))
    → AllEligible cs
    → w < candidate_sum cs
    → (n i : ℕ) × (b : BackendRr) × (get_elem? cs n ≡ some (i, b)) × (sticky_pick (pos w) cs ≡ ok i)
unfolding candidate_sum
sticky_pick-found w [] a h = absurd (omega arith)
sticky_pick-found w ((i, b) ∷ cs) a h = elim (Bool-cases (ltb w (pos_part b.weight))) [
  | inl l ↦ (0, i, b, refl, sticky_pick-hit w i b cs a.0 (ground arith))
  | inr l ↦
      let le : pos_part b.weight ≤ w = ground arith in
      let (n, j, c, g, e) =
        sticky_pick-found (w - pos_part b.weight) cs a.1 (omega (arith, h, le)) in
      (suc n, j, c, g, sticky_pick-take w i b cs a.0 le ∙ e)
]

candidates-AllEligible : (i : ℕ) (bs : BackendList) → AllEligible (sticky_candidates i bs)
unfolding sticky_candidates
candidates-AllEligible i [] = tt
candidates-AllEligible i (b ∷ bs) = elim (Bool-cases (is_eligible b)) [
  | inl e ↦ rw e (e, candidates-AllEligible (suc i) bs)
  | inr e ↦ rw e (candidates-AllEligible (suc i) bs)
]

candidates-get :
    (i n : ℕ) (bs : BackendList) (j : ℕ) (b : BackendRr)
    → get_elem? (sticky_candidates i bs) n ≡ some (j, b)
    → (k : ℕ) × (i + k ≡ j) × (get_elem? bs k ≡ some b) × (is_eligible b ≡ true)
unfolding sticky_candidates
candidates-get i n [] j b g = cc
candidates-get i n (x ∷ bs) j b g = elim (Bool-cases (is_eligible x)) [
  | inr e ↦
      let (k, p, q, r) = candidates-get (suc i) n bs j b (rw e at g) in (suc k, omega arith, q, r)
  | inl e ↦ at_head e (λ m. candidates-get (suc i) m bs j b) n (rw e at g)
]
  where
    at_head :
        is_eligible x ≡ true
        → ((m : ℕ)
            → get_elem? (sticky_candidates (suc i) bs) m ≡ some (j, b)
            → (k : ℕ) × (suc i + k ≡ j) × (get_elem? bs k ≡ some b) × (is_eligible b ≡ true))
        → (n : ℕ) → get_elem? ((i, x) ∷ sticky_candidates (suc i) bs) n ≡ some (j, b)
        → (k : ℕ) × (i + k ≡ j) × (get_elem? (x ∷ bs) k ≡ some b) × (is_eligible b ≡ true)
    at_head e later zero g =
        let same : x ≡ b = cc in
        let here : i ≡ j = cc in (0, omega arith, ap some same, ap is_eligible (sym same) ∙ e)
    at_head e later (suc n) g = let (k, p, q, r) = later n g in (suc k, omega arith, q, r)

no_candidates :
    (i : ℕ) (bs : BackendList)
    → sticky_candidates i bs ≡ []
    → (k : ℕ) (b : BackendRr) → get_elem? bs k ≡ some b
    → is_eligible b ≡ false
unfolding sticky_candidates
no_candidates i [] h k b g = cc
no_candidates i (x ∷ bs) h zero b g = ground arith
no_candidates i (x ∷ bs) h (suc k) b g = elim (Bool-cases (is_eligible x)) [
  | inl e ↦ absurd (∷_not_nil (rw e at h))
  | inr e ↦ no_candidates (suc i) bs (rw e at h) k b g
]
  where
    ∷_not_nil :
        {c : ℕ × BackendRr} {cs : List (ℕ × BackendRr)}
        → ◌≡◌ {A = List (ℕ × BackendRr)} (c ∷ cs) []
        → ⊥
    ∷_not_nil h = cc

-- Which hash value it looks for.
among-pick :
    (sum64 : Bytes → ℕ) (r : ℕ) (key : Bytes) (c : ℕ × BackendRr) (cs : List (ℕ × BackendRr))
    (n : ℕ)
    → pos_part (total_weight (c ∷ cs)) ≡ n
    → 0 < n
    → sticky_among sum64 r (some key) (c ∷ cs) ≡ sticky_pick (pos (sum64 key % n)) (c ∷ cs)
unfolding sticky_among get_hash
among-pick sum64 r key c cs n h p =
    let nz : (n == 0) ≡ false = ground arith in ap (pick_with sum64 key (c ∷ cs)) h ∙ rw nz refl
  where
    pick_with : (Bytes → ℕ) → Bytes → List (ℕ × BackendRr) → ℕ → Result ℕ
    pick_with sum64 key cs n = elim (if n == 0 then none else some (sum64 key % n)) [
      | none ↦ err panicked
      | some value ↦ sticky_pick (pos value) cs
    ]

among-found :
    (sum64 : Bytes → ℕ) (r : ℕ) (key : Bytes) (c : ℕ × BackendRr) (cs : List (ℕ × BackendRr))
    → AllEligible (c ∷ cs)
    → (n i : ℕ) × (b : BackendRr) × (get_elem? (c ∷ cs) n ≡ some (i, b))
      × (sticky_among sum64 r (some key) (c ∷ cs) ≡ ok i)
unfolding candidate_sum
among-found sum64 r key c cs a =
    let s = candidate_sum (c ∷ cs) in
    let p : 0 < s = omega (arith, eligible_weight c.1 a.0) in
    let (n, i, b, g, e) = sticky_pick-found (sum64 key % s) (c ∷ cs) a (mod-lt _ p) in
    (n, i, b, g, among-pick sum64 r key c cs s (ap pos_part (total_weight-sum (c ∷ cs) a)) p ∙ e)

-- For every key sticky balancing returns an eligible backend of the list; or it fails, and no backend of the list
-- is eligible. It never falls out of its loop over the weights, and never divides by zero.
pub sticky_select-cases :
    (sum64 : Bytes → ℕ) (r : ℕ) (key : Bytes) (bs : BackendList)
    → ((i : ℕ) × (b : BackendRr) × (sticky_select sum64 r (some key) bs ≡ ok i)
        × (get_elem? bs i ≡ some b)
        × (is_eligible b ≡ true))
      ⊎ ((sticky_select sum64 r (some key) bs ≡ err all_backends_down)
          × ((k : ℕ) (b : BackendRr) → get_elem? bs k ≡ some b → is_eligible b ≡ false))
unfolding sticky_select sticky_among
sticky_select-cases sum64 r key bs = go (sticky_candidates 0 bs) refl (candidates-AllEligible 0 bs)
  where
    go :
        (cs : List (ℕ × BackendRr))
        → sticky_candidates 0 bs ≡ cs
        → AllEligible cs
        → ((i : ℕ) × (b : BackendRr) × (sticky_among sum64 r (some key) cs ≡ ok i)
            × (get_elem? bs i ≡ some b)
            × (is_eligible b ≡ true))
          ⊎ ((sticky_among sum64 r (some key) cs ≡ err all_backends_down)
              × ((k : ℕ) (b : BackendRr) → get_elem? bs k ≡ some b → is_eligible b ≡ false))
    go [] e a = inr (refl, no_candidates 0 bs e)
    go (c ∷ cs) e a =
        let (n, i, b, g, f) = among-found sum64 r key c cs a in
        let (k, p, q, t) = candidates-get 0 n bs i b (ap (λ l. get_elem? l n) e ∙ g) in
        let same : k ≡ i = omega (arith, p) in inl (i, b, f, rw (← same) q, t)
