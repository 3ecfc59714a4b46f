-- ===== src/Slb/Simple.antt =====
-- bfe_balance/bal_slb/bal_rr.go: `simpleBalance`, plain weighted round robin.
pub mod Round
pub mod Laps
use bfe.Common.{
  ℕ, zero, suc, ◌+◌, ◌*◌, ◌==◌, leb, Bool, true, false, ◌&&◌, not, Option, none, some, List,
  if◌then◌else◌, get_elem?, set, length,
}
use bfe.Common.Int.{pos, ◌-ℤ◌, ltb_ℤ, eqb_ℤ}
use bfe.Slb.Backends.{BackendRr}
use bfe.Slb.Balancer.{
  BalanceRr, BackendList, Result, ok, err, all_backends_down, panicked, out_of_fuel, reset_weight,
}

unfoldable pub move_to_next : ℕ → BackendList → ℕ
move_to_next next backends = if leb (length backends) (next + 1) then 0 else next + 1

-- The variables of the loop; `start` is brr.next.
pub record Scan : Type 0 where
  pub backends : BackendList
  pub start : ℕ
  pub next : ℕ
  pub all_down : Bool

abbrev pub is_ready : BackendRr → Bool
is_ready b = b.backend.avail && ltb_ℤ (pos 0) b.current

-- A round that does not find a backend: `none` if all have been seen and all are down.
unfoldable pub scan_on : BackendRr → Scan → Option Scan
unfolding move_to_next reset_weight
scan_on b s =
    let all_down = if b.backend.avail && not (eqb_ℤ b.weight (pos 0)) then false else s.all_down in
    let next = move_to_next s.next s.backends in
    if next == s.start
    then (if all_down
        then none
        else some (record {
          backends = reset_weight s.backends;
          start = 0;
          next = 0;
          all_down = all_down;
        }))
    else some (record s { next = next; all_down = all_down })

-- What follows a round that did not find a backend.
abbrev pub go_on : Option Scan → Scan → (Scan → Scan × Result ℕ) → Scan × Result ℕ
go_on none s next_round = (s, err all_backends_down)
go_on (some s') s next_round = next_round s'

-- One round, at the entry that it reads.
abbrev pub visit : Option BackendRr → Scan → (Scan → Scan × Result ℕ) → Scan × Result ℕ
visit none s next_round = (s, err panicked)
visit (some b) s next_round =
    if is_ready b then (s, ok s.next) else go_on (scan_on b s) s next_round

-- The end of the loop: the state it stopped in, and the position found.
unfoldable pub scan : ℕ → Scan → Scan × Result ℕ
unfolding scan_on
scan zero s = (s, err out_of_fuel)
scan (suc f) s = visit (get_elem? s.backends s.next) s (scan f)

-- backendRR.current--
unfoldable pub use_up : ℕ → BackendList → BackendList
use_up i backends = elim (get_elem? backends i) [
  | none ↦ backends
  | some b ↦ set backends i (record b { current = b.current -ℤ pos 1 })
]

abbrev pub scan_fuel : BackendList → ℕ
scan_fuel backends = 2 * length backends + 1

abbrev pub started : BalanceRr → Scan
started brr = record { backends = brr.backends; start = brr.next; next = brr.next; all_down = true }

-- What follows the loop.
unfoldable pub finish : BalanceRr → Scan → Result ℕ → BalanceRr × Result ℕ
unfolding use_up move_to_next
finish brr s (ok i) =
    (record brr { backends = use_up i s.backends; next = move_to_next i s.backends }, ok i)
finish brr s (err e) = (record brr { backends = s.backends; next = s.start }, err e)

unfoldable pub simple_balance : BalanceRr → BalanceRr × Result ℕ
unfolding scan finish
simple_balance brr =
    let (s, found) = scan (scan_fuel brr.backends) (started brr) in finish brr s found
