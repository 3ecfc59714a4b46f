-- ===== src/Slb/LeastConns/Choice.antt =====
-- The candidates of `leastConnsBalance` and what is chosen among them.
use bfe.Common.{
  ℕ, suc, ◌+◌, ◌≡◌, refl, ◌⊎◌, Bool, true, false, ◌&&◌, some, List, [], ◌∷◌, ◌++◌, if◌then◌else◌,
  get_elem?, arith, Bool-cases, inl, inr,
}
use bfe.Common.Int.{pos, ltb_ℤ, eqb_ℤ}
use bfe.Slb.Backends.{BackendRr}
use bfe.Slb.Balancer.{BackendList, Result, BalanceError, ok, err, all_backends_down, is_eligible}
use bfe.Slb.Smooth.{smooth_balance}
use bfe.Slb.Smooth.Choice.{smooth_balance-ok}
use bfe.Slb.LeastConns.{
  Candidates, compare_candidate, comp_lc_weight, least_conns_loop, least_conns_balance, is_member,
  least_conns_smooth_balance,
}

-- The entry at a position is an eligible backend.
abbrev pub EligibleAt : BackendList → ℕ → Type 0
EligibleAt bs i = (b : BackendRr) × (get_elem? bs i ≡ some b) × (is_eligible b ≡ true)

abbrev pub AllEligibleAt : BackendList → List ℕ → Type 0
AllEligibleAt bs [] = Unit
AllEligibleAt bs (i ∷ is) = EligibleAt bs i × AllEligibleAt bs is

AllEligibleAt-append :
    (bs : BackendList) (is : List ℕ) (j : ℕ)
    → AllEligibleAt bs is
    → EligibleAt bs j
    → AllEligibleAt bs (is ++ j ∷ [])
AllEligibleAt-append bs [] j a e = (e, tt)
AllEligibleAt-append bs (i ∷ is) j a e = (a.0, AllEligibleAt-append bs is j a.1 e)

compare_candidate-AllEligibleAt :
    (whole : BackendList) (i : ℕ) (b : BackendRr) (c : Candidates)
    → EligibleAt whole i
    → AllEligibleAt whole c.positions
    → AllEligibleAt whole (compare_candidate i b c).positions
unfolding compare_candidate
compare_candidate-AllEligibleAt whole i b c e a = go c.positions a
  where
    go :
        (is : List ℕ)
        → AllEligibleAt whole is
        → AllEligibleAt whole (compare_candidate i b (record c { positions = is })).positions
    go [] a = (e, tt)
    go (j ∷ js) a =
        let ret = comp_lc_weight c.best_conn_num c.best_weight b.backend.conn_num b.weight in
        elim (Bool-cases (ltb_ℤ (pos 0) ret)) [
          | inl less ↦ rw less (e, tt)
          | inr not_less ↦ elim (Bool-cases (eqb_ℤ ret (pos 0))) [
            | inl same ↦ rw (not_less, same) (AllEligibleAt-append whole (j ∷ js) i a e)
            | inr more ↦ rw (not_less, more) a
          ]
        ]

least_conns_loop-AllEligibleAt :
    (whole : BackendList) (i : ℕ) (bs : BackendList) (c : Candidates)
    → ((k : ℕ) (b : BackendRr) → get_elem? bs k ≡ some b → get_elem? whole (i + k) ≡ some b)
    → AllEligibleAt whole c.positions
    → AllEligibleAt whole (least_conns_loop i bs c).positions
unfolding least_conns_loop
least_conns_loop-AllEligibleAt whole i [] c t a = a
least_conns_loop-AllEligibleAt whole i (b ∷ bs) c t a =
    least_conns_loop-AllEligibleAt whole (suc i) bs _ (λ k x g. later k x (t (suc k) x g))
      (step (Bool-cases (is_eligible b)))
  where
    later :
        (k : ℕ) (x : BackendRr)
        → get_elem? whole (i + suc k) ≡ some x
        → get_elem? whole (suc i + k) ≡ some x
    later k x g = let e : i + suc k ≡ suc i + k = omega arith in rw e at g

    here : get_elem? whole i ≡ some b
    here = let e : i + 0 ≡ i = omega arith in let g = t 0 b refl in rw e at g

    step :
        (is_eligible b ≡ true) ⊎ (is_eligible b ≡ false)
        → AllEligibleAt whole (if is_eligible b then compare_candidate i b c else c).positions
    step (inl e) = rw e (compare_candidate-AllEligibleAt whole i b c (b, here, e) a)
    step (inr e) = rw e a

-- The candidates, as the loop leaves them.
abbrev pub candidates : BackendList → List ℕ
candidates bs =
    (least_conns_loop 0 bs
      (record { positions = []; best_conn_num = pos 0; best_weight = pos 0 })).positions

pub candidates-AllEligibleAt : (bs : BackendList) → AllEligibleAt bs (candidates bs)
candidates-AllEligibleAt bs = least_conns_loop-AllEligibleAt bs 0 bs _ from_start tt
  where
    from_start : (k : ℕ) (b : BackendRr) → get_elem? bs k ≡ some b → get_elem? bs (0 + k) ≡ some b
    from_start k b g = let e : k ≡ 0 + k = omega arith in rw e at g

abbrev pub of_candidates : List ℕ → Result (List ℕ)
of_candidates [] = err all_backends_down
of_candidates (i ∷ is) = ok (i ∷ is)

abbrev pub smooth_among : BackendList → Result (List ℕ) → BackendList × Result ℕ
smooth_among backs (err e) = (backs, err e)
smooth_among backs (ok []) = smooth_balance (is_member []) backs
smooth_among backs (ok (i ∷ [])) = (backs, ok i)
smooth_among backs (ok (i ∷ j ∷ is)) = smooth_balance (is_member (i ∷ j ∷ is)) backs

right_of_and : (s t : Bool) → (s && t) ≡ true → t ≡ true
right_of_and s t h = ground arith

of_ok :
    {i j : ℕ} {bs bs' : BackendList}
    → ◌≡◌ {A = BackendList × Result ℕ} (bs, ok j) (bs', ok i)
    → j ≡ i
of_ok h = cc

err_not_ok :
    {e : BalanceError} {i : ℕ} {bs bs' : BackendList}
    → ◌≡◌ {A = BackendList × Result ℕ} (bs, err e) (bs', ok i)
    → ⊥
err_not_ok h = cc

smooth_among-EligibleAt :
    (bs bs' : BackendList) (js : List ℕ) (i : ℕ)
    → AllEligibleAt bs js
    → smooth_among bs (of_candidates js) ≡ (bs', ok i)
    → EligibleAt bs i
smooth_among-EligibleAt bs bs' [] i a h = absurd (err_not_ok h)
smooth_among-EligibleAt bs bs' (j ∷ []) i a h = rw (of_ok h) at (a.0)
smooth_among-EligibleAt bs bs' (j ∷ k ∷ js) i a h =
    let (b, g, t, _, _) = smooth_balance-ok (is_member (j ∷ k ∷ js)) bs bs' i h in
    (b, g, right_of_and _ _ t)

-- Least connections never choose a backend that is down or has no weight.
pub least_conns_smooth_balance-EligibleAt :
    (bs bs' : BackendList) (i : ℕ) → least_conns_smooth_balance bs ≡ (bs', ok i) → EligibleAt bs i
unfolding least_conns_smooth_balance least_conns_balance
least_conns_smooth_balance-EligibleAt bs bs' i h =
    smooth_among-EligibleAt bs bs' (candidates bs) i (candidates-AllEligibleAt bs) h
