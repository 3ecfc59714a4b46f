-- ===== src/Slb/LeastConns.antt =====
-- bfe_balance/bal_slb/bal_rr.go: the balancing by least connections for the weight.
pub mod Choice
pub mod Minimal
pub mod Ratio
pub mod Best
use bfe.Common.{
  ℕ, suc, ◌%◌, ◌==◌, Bool, false, ◌||◌, none, some, List, [], ◌∷◌, ◌++◌, if◌then◌else◌, get_elem?,
  length,
}
use bfe.Common.Int.{ℤ, pos, negsuc, ◌*ℤ◌, ◌-ℤ◌, ltb_ℤ, eqb_ℤ}
use bfe.Slb.Backends.{BackendRr}
use bfe.Slb.Balancer.{BackendList, Result, ok, err, all_backends_down, panicked, is_eligible}
use bfe.Slb.Smooth.{smooth_balance}

-- 1, 0 or -1, as connNum / weight is above, at or below bConnNum / bWeight.
unfoldable pub comp_lc_weight : ℤ → ℤ → ℤ → ℤ → ℤ
comp_lc_weight conn_num weight b_conn_num b_weight =
    let ret = conn_num *ℤ b_weight -ℤ b_conn_num *ℤ weight in
    if ltb_ℤ (pos 0) ret then pos 1 else if eqb_ℤ ret (pos 0) then pos 0 else negsuc 0

-- The candidates, by position, and what they have in common.
pub record Candidates : Type 0 where
  pub positions : List ℕ
  pub best_conn_num : ℤ
  pub best_weight : ℤ

abbrev only : ℕ → BackendRr → Candidates
only i b = record { positions = i ∷ []; best_conn_num = b.backend.conn_num; best_weight = b.weight }

-- The body of the loop, for an eligible backend at position i.
unfoldable pub compare_candidate : ℕ → BackendRr → Candidates → Candidates
unfolding comp_lc_weight
compare_candidate i b c = elim c.positions [
  | [] ↦ only i b
  | _ ∷ _ ↦
      let ret = comp_lc_weight c.best_conn_num c.best_weight b.backend.conn_num b.weight in
      if ltb_ℤ (pos 0) ret
      then only i b
      else if eqb_ℤ ret (pos 0)
      then record c { positions = c.positions ++ i ∷ [] }
      else c
]

unfoldable pub least_conns_loop : ℕ → BackendList → Candidates → Candidates
unfolding compare_candidate
least_conns_loop i [] c = c
least_conns_loop i (b ∷ bs) c =
    least_conns_loop (suc i) bs (if is_eligible b then compare_candidate i b c else c)

unfoldable pub least_conns_balance : BackendList → Result (List ℕ)
unfolding least_conns_loop
least_conns_balance backs =
    let c =
      least_conns_loop 0 backs
        (record { positions = []; best_conn_num = pos 0; best_weight = pos 0 }) in
    elim c.positions [ [] ↦ err all_backends_down | i ∷ is ↦ ok (i ∷ is) ]

unfoldable pub is_member : List ℕ → ℕ → Bool
is_member [] j = false
is_member (i ∷ is) j = i == j || is_member is j

unfoldable pub least_conns_smooth_balance : BackendList → BackendList × Result ℕ
unfolding least_conns_balance is_member smooth_balance
least_conns_smooth_balance backs = elim (least_conns_balance backs) [
  | err e ↦ (backs, err e)
  | ok [] ↦ smooth_balance (is_member []) backs
  | ok (i ∷ []) ↦ (backs, ok i)
  | ok (i ∷ j ∷ is) ↦ smooth_balance (is_member (i ∷ j ∷ is)) backs
]

-- `r` is what rand.Int returns. Go panics on a modulus of 0.
unfoldable pub random_balance : ℕ → List ℕ → Result ℕ
random_balance r backs = elim (get_elem? backs (r % length backs)) [
  | none ↦ err panicked
  | some i ↦ ok i
]

unfoldable pub least_conns_simple_balance : ℕ → BackendList → Result ℕ
unfolding least_conns_balance random_balance
least_conns_simple_balance r backs = elim (least_conns_balance backs) [
  | err e ↦ err e
  | ok [] ↦ random_balance r []
  | ok (i ∷ []) ↦ ok i
  | ok (i ∷ j ∷ is) ↦ random_balance r (i ∷ j ∷ is)
]
