-- ===== src/Slb/Smooth.antt =====
-- bfe_balance/bal_slb/bal_rr.go: `smoothBalance`, smooth weighted round robin.
-- The list that it is called with holds some of the balancer's backends, in their order; `member`
-- says which positions those are. The loop updates the backends in place.
pub mod Loop
pub mod Choice
pub mod Rounds
pub mod Fair
pub mod Tracked
pub mod Share
use bfe.Common.{
  ℕ, zero, suc, ◌+◌, Bool, true, false, ◌&&◌, not, Option, none, some, List, [], ◌∷◌, if◌then◌else◌,
}
use bfe.Common.Int.{ℤ, pos, ◌+ℤ◌, ◌-ℤ◌, ltb_ℤ}
use bfe.Slb.Backends.{BackendRr}
use bfe.Slb.Balancer.{BackendList, Result, ok, err, all_backends_down, is_eligible}

-- `best`, `total` and `max`, of one run of the loop.
pub record Pick : Type 0 where
  pub best : Option ℕ
  pub total : ℤ
  pub max : ℤ

abbrev is_better : BackendRr → Pick → Bool
is_better b s = elim s.best [ none ↦ true | some _ ↦ ltb_ℤ s.max b.current ]

-- The body of the loop, for an eligible backend at position i.
unfoldable pub consider : ℕ → BackendRr → Pick → Pick
consider i b s =
    if is_better b s
    then record { best = some i; total = s.total +ℤ b.weight; max = b.current }
    else record s { total = s.total +ℤ b.weight }

abbrev pub bump : BackendRr → BackendRr
bump b = record b { current = b.current +ℤ b.weight }

unfoldable pub smooth_loop : (ℕ → Bool) → ℕ → BackendList → Pick → BackendList × Pick
unfolding consider
smooth_loop member i [] s = ([], s)
smooth_loop member i (b ∷ bs) s =
    let chosen = member i && is_eligible b in
    let rest = smooth_loop member (suc i) bs (if chosen then consider i b s else s) in
    ((if chosen then bump b else b) ∷ rest.0, rest.1)

-- best.current -= total
unfoldable pub charge : ℤ → ℕ → BackendList → BackendList
charge total i [] = []
charge total zero (b ∷ bs) = record b { current = b.current -ℤ total } ∷ bs
charge total (suc i) (b ∷ bs) = b ∷ charge total i bs

abbrev pub charge_best : Pick → BackendList → BackendList
charge_best s backs = elim s.best [ none ↦ backs | some i ↦ charge s.total i backs ]

abbrev pub of_best : Option ℕ → Result ℕ
of_best none = err all_backends_down
of_best (some i) = ok i

abbrev pub no_pick : Pick
no_pick = record { best = none; total = pos 0; max = pos 0 }

-- The backends after the call, and the position of the one that is chosen.
unfoldable pub smooth_balance : (ℕ → Bool) → BackendList → BackendList × Result ℕ
unfolding smooth_loop charge
smooth_balance member backs =
    let (backs', s) = smooth_loop member 0 backs no_pick in (charge_best s backs', of_best s.best)
