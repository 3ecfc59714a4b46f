-- ===== src/Slb/Balance.antt =====
-- bfe_balance/bal_slb/bal_rr.go: `Balance`, which chooses the algorithm.
pub mod Avail
pub mod Calm
use bfe.Common.{ℕ, Bytes, Option, none, some}
use bfe.Slb.Balancer.{BalanceRr, BackendList, Result, err, panicked, Readings, check_slow_start}
use bfe.Slb.Smooth.{smooth_balance}
use bfe.Slb.LeastConns.{least_conns_smooth_balance, least_conns_simple_balance}
use bfe.Slb.Simple.{simple_balance}
use bfe.Slb.Sticky.{sticky_balance}
use bfe.Common.{true}

-- `other` is any value for which `Balance` has no case.
pub data Algor : Type 0 where
  wrr_simple wrr_smooth wrr_sticky wlc_simple wlc_smooth other : Algor

-- What a call reads besides its arguments: the clock, and the numbers that it draws.
pub record Env : Type 0 where
  pub clock : ℕ → Readings
  pub rand_int : ℕ
  pub rand_uint32 : ℕ
  pub sum64 : Bytes → ℕ

abbrev pub with_backends : BalanceRr → BackendList × Result ℕ → BalanceRr × Result ℕ
with_backends brr (bs, r) = (record brr { backends = bs }, r)

unfoldable pub smooth_all : BackendList → BackendList × Result ℕ
unfolding smooth_balance
smooth_all = smooth_balance (λ _. true)

-- Slow start is left out for a sticky session; `none` is a panic.
abbrev pub looked_at : Env → Algor → BalanceRr → Option BalanceRr
looked_at env wrr_sticky brr = some brr
looked_at env _ brr = check_slow_start env.clock brr

-- The switch over the algorithms.
unfoldable pub choose : Env → Algor → Option Bytes → BalanceRr → BalanceRr × Result ℕ
unfolding simple_balance smooth_all sticky_balance least_conns_smooth_balance
    least_conns_simple_balance
choose env wrr_simple key brr = simple_balance brr
choose env wrr_smooth key brr = with_backends brr (smooth_all brr.backends)
choose env wrr_sticky key brr = sticky_balance env.sum64 env.rand_uint32 key brr
choose env wlc_simple key brr = (brr, least_conns_simple_balance env.rand_int brr.backends)
choose env wlc_smooth key brr = with_backends brr (least_conns_smooth_balance brr.backends)
choose env other key brr = with_backends brr (smooth_all brr.backends)

unfoldable pub balance : Env → Algor → Option Bytes → BalanceRr → BalanceRr × Result ℕ
unfolding check_slow_start choose
balance env algor key brr = elim (looked_at env algor brr) [
  | none ↦ (brr, err panicked)
  | some brr' ↦ choose env algor key brr'
]
