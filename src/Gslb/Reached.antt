-- ===== src/Gslb/Reached.antt =====
-- The clusters that bal_gslb.go makes: one `Init`, and any number of calls of `Reload`.
use bfe.Common.{◌≡◌, refl, some, Bytes}
use bfe.Gslb.{BalanceGslb, new_balance_gslb}
use bfe.Gslb.Weights.{GslbClusterConf, done, init}
use bfe.Gslb.Reload.{reload}
use bfe.Gslb.Consistent.{IsConsistent, init-IsConsistent, reload-IsConsistent}

-- A cluster that has been made without an error.
pub data Reached : BalanceGslb → Type 0 where
  by_init :
      (name : Bytes) (conf : GslbClusterConf)
      → (init conf (new_balance_gslb name)).1 ≡ done
      → Reached (init conf (new_balance_gslb name)).0
  by_reload :
      (conf : GslbClusterConf) (bal bal' : BalanceGslb)
      → Reached bal
      → reload conf bal ≡ some (bal', done)
      → Reached bal'

-- After an `Init` and any calls of `Reload`, none of which fails, the total of a cluster is that of
-- its sub-clusters' positive weights, there is one, and a cluster counted as single has exactly the
-- one at `avail`.
pub Reached-IsConsistent : (bal : BalanceGslb) → Reached bal → IsConsistent bal
unfolding new_balance_gslb
Reached-IsConsistent _ (by_init name conf h) = init-IsConsistent conf (new_balance_gslb name) refl h
Reached-IsConsistent _ (by_reload conf bal bal' v h) = reload-IsConsistent conf bal bal' h
