-- ===== src/Gslb.antt =====
-- bfe_balance/bal_gslb/bal_gslb.go and sub_cluster.go: balancing between the sub-clusters of a
-- cluster. A `*SubCluster` is its position in `sub_clusters`. The EPP runtime (its connections and
-- probes) is left out; the breaker in front of it is the one of Breaker.antt.
pub mod Weights
pub mod Reload
pub mod HashKey
pub mod Select
pub mod Balance
pub mod Epp
pub mod Consistent
pub mod Reached
pub mod Examples
use bfe.Common.{
  ℕ, Bool, true, false, Option, none, some, List, [], ◌∷◌, Bytes, codes, bytes_eq, if◌then◌else◌,
  length, ◌==◌,
}
use bfe.Common.Int.{ℤ, pos}
use bfe.Backend.{BackendConf}
use bfe.Breaker.{EppBreaker}
use bfe.Slb.Balancer.{
  BalanceRr, BackendList, Result, err, no_backend, new_balance_rr, release_all, set_slow_start,
}
use bfe.Slb.Balancer
use bfe.Slb.Update
use bfe.Slb.Balance.{Algor, Env}
use bfe.Slb.Balance as SlbBalance

pub data SubClusterType : Type 0 where
  gslb_normal gslb_blackhole : SubClusterType

pub record SubCluster : Type 0 where
  pub name : Bytes
  pub s_type : SubClusterType
  pub backends : BalanceRr
  pub weight : ℤ

unfoldable pub new_sub_cluster : Bytes → SubCluster
unfolding new_balance_rr
new_sub_cluster name = record {
  name = name;
  s_type = if bytes_eq name (codes "GSLB_BLACKHOLE") then gslb_blackhole else gslb_normal;
  backends = new_balance_rr name;
  weight = pos 0;
}

unfoldable pub init : List BackendConf → SubCluster → SubCluster
unfolding Balancer.init
init backends sub = record sub { backends = Balancer.init backends sub.backends }

-- `order` is the order in which `Update` ranges over its map; `none` is a panic.
unfoldable pub update :
    (Update.ConfMap → Update.ConfMap) → List BackendConf → SubCluster → Option SubCluster
unfolding Update.update
update order backends sub = elim (Update.update order backends sub.backends) [
  | none ↦ none
  | some (brr, released) ↦ some (record sub { backends = brr })
]

-- `none` is the panic of a second `Close`.
unfoldable pub release : SubCluster → Option SubCluster
unfolding release_all
release sub = elim (release_all sub.backends.backends) [
  | none ↦ none
  | some bs ↦ some (record sub { backends = record (sub.backends) { backends = bs } })
]

unfoldable pub balance : Env → Algor → Option Bytes → SubCluster → SubCluster × Result ℕ
unfolding SlbBalance.balance
balance env algor key sub =
    let (brr, r) = SlbBalance.balance env algor key sub.backends in
    if length sub.backends.backends == 0
    then (sub, err no_backend)
    else (record sub { backends = brr }, r)

pub data HashStrategy : Type 0 where
  client_id_only client_ip_only client_id_preferred request_uri : HashStrategy

pub record HashConf : Type 0 where
  pub hash_strategy : HashStrategy
  pub hash_header : Bytes
  pub session_sticky : Bool

pub record BalanceGslb : Type 0 where
  pub name : Bytes
  pub sub_clusters : List SubCluster
  pub total_weight : ℤ
  pub single : Bool
  pub avail : ℕ
  pub retry_max : ℤ
  pub cross_retry : ℤ
  pub hash_conf : HashConf
  pub balance_mode : Bytes
  pub epp_breaker : Option EppBreaker

-- The header of the default conf is a nil pointer, which its strategy does not read.
unfoldable pub new_balance_gslb : Bytes → BalanceGslb
new_balance_gslb name = record {
  name = name;
  sub_clusters = [];
  total_weight = pos 0;
  single = false;
  avail = 0;
  retry_max = pos 3;
  cross_retry = pos 1;
  hash_conf = record { hash_strategy = client_ip_only; hash_header = []; session_sticky = false };
  balance_mode = codes "WRR";
  epp_breaker = none;
}

set_slow_start_each : ℤ → List SubCluster → List SubCluster
unfolding set_slow_start
set_slow_start_each ss_time [] = []
set_slow_start_each ss_time (s ∷ ss) =
    record s { backends = Balancer.set_slow_start ss_time s.backends }
    ∷ set_slow_start_each ss_time ss

pub set_slow_start_all : ℤ → BalanceGslb → BalanceGslb
unfolding set_slow_start_each
set_slow_start_all ss_time bal = record bal {
  sub_clusters = set_slow_start_each ss_time bal.sub_clusters;
}
