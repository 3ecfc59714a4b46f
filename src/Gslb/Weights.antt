-- ===== src/Gslb/Weights.antt =====
-- bal_gslb.go, `Init`, and the counting of weights that it and `Reload` do.
use bfe.Common.{ℕ, suc, ◌+◌, Bool, List, [], ◌∷◌, ◌++◌, Bytes, if◌then◌else◌, ◌==◌, sort_by}
use bfe.Common.Int.{ℤ, pos, ◌+ℤ◌, ltb_ℤ, eqb_ℤ}
use bfe.Gslb.{SubCluster, BalanceGslb, new_sub_cluster}

-- gslb_conf.GslbClusterConf, each name once, in the order in which Go ranges over the map.
abbrev pub GslbClusterConf : Type 0
GslbClusterConf = List (Bytes × ℤ)

-- `total_weight_zero`: the only error.
pub data Outcome : Type 0 where
  done total_weight_zero : Outcome

abbrev pub has_weight : SubCluster → Bool
has_weight sub = ltb_ℤ (pos 0) sub.weight

abbrev pub sub_name : SubCluster → Bytes
sub_name sub = sub.name

-- What the loops over the sub-clusters find out.
pub record Weights : Type 0 where
  pub total : ℤ
  pub available : ℕ
  pub last : ℕ

abbrev pub count_weight : ℕ → SubCluster → Weights → Weights
count_weight i sub w =
    if has_weight sub
    then record { total = w.total +ℤ sub.weight; available = w.available + 1; last = i }
    else w

unfoldable pub count_weights : ℕ → List SubCluster → Weights → Weights
count_weights i [] w = w
count_weights i (s ∷ ss) w = count_weights (suc i) ss (count_weight i s w)

abbrev pub new_of_conf : Bytes × ℤ → SubCluster
new_of_conf e = record (new_sub_cluster e.0) { weight = e.1 }

-- The loop of `Init` over its configuration: the sub-clusters, and their total weight.
unfoldable pub init_loop : GslbClusterConf → List SubCluster → ℤ → List SubCluster × ℤ
unfolding new_sub_cluster
init_loop [] subs total = (subs, total)
init_loop ((name, weight) ∷ conf) subs total =
    init_loop conf (subs ++ new_of_conf (name, weight) ∷ [])
      (if ltb_ℤ (pos 0) weight then total +ℤ weight else total)

-- The sub-clusters stay appended when it fails.
unfoldable pub init : GslbClusterConf → BalanceGslb → BalanceGslb × Outcome
unfolding init_loop sort_by count_weights
init conf bal =
    let (subs, total) = init_loop conf bal.sub_clusters (pos 0) in
    let sorted = sort_by sub_name subs in
    let w = count_weights 0 sorted (record { total = pos 0; available = 0; last = bal.avail }) in
    if eqb_ℤ total (pos 0) then (record bal { sub_clusters = subs }, total_weight_zero) else (
      record bal {
        sub_clusters = sorted;
        total_weight = total;
        avail = w.last;
        single = w.available == 1;
      },
      done,
    )
