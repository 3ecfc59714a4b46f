-- ===== src/Gslb/Examples.antt =====
-- Runs of the balancing between sub-clusters, and the theorems about it at concrete inputs.
use bfe.Common.{
  ℕ, ◌≡◌, ◌%◌, ◌⊎◌, refl, true, false, Option, none, some, List, [], ◌∷◌, arith, get_elem?, Bytes,
  codes, bytes_eq,
}
use bfe.Common.Int.{pos, ◌+ℤ◌, ◌-ℤ◌}
use bfe.Backend.{BfeBackend, open_chan}
use bfe.Slb.Backends.{BackendRr}
use bfe.Slb.Balancer.{}
use bfe.Slb.Balance.{}
use bfe.Gslb.{SubCluster, gslb_normal, BalanceGslb, new_balance_gslb, client_ip_only}
use bfe.Gslb.Weights.{GslbClusterConf, Outcome, done, init, init_loop, has_weight}
use bfe.Gslb.Reload.{reload}
use bfe.Gslb.Consistent.{IsConsistent, weight_sum}
use bfe.Gslb.Reached.{Reached, by_init, by_reload, Reached-IsConsistent}
use bfe.Gslb.HashKey.{no_sticky}
use bfe.Gslb.Select.{
  selected, no_sub_cluster, sub_cluster_balance, random_select_exclude, may_take_over,
}
use bfe.Gslb.Select.Share.{Owns, sub_cluster_balance-Owns}
use bfe.Gslb.Select.Cross.{random_select_exclude-cases}
use bfe.Gslb.Balance.{GslbEnv, World, chosen, panics, balance}
use bfe.Gslb.Balance.Survives.{AllSubsTimed, balance-Survives}
use bfe.Common.{◌≢◌}
use bfe.Gslb.Balance.Sticky.{Serves}
use bfe.Gslb.Balance.Serves.{balance-Serves}

abbrev backend : BfeBackend
backend = record {
  name = b'1' ∷ [];
  addr = b'h' ∷ [];
  port = 80;
  addr_info = b'h' ∷ b':' ∷ b'8' ∷ b'0' ∷ [];
  sub_cluster = b'a' ∷ [];
  avail = true;
  restarted = false;
  conn_num = pos 0;
  fail_num = 0;
  succ_num = 0;
  close_chan = open_chan;
}

abbrev entry : BackendRr
entry = record {
  weight = pos 100;
  current = pos 100;
  backend = backend;
  in_slow_start = false;
  weight_ss = record { final = pos 100; slow_start_time = pos 0; start_time = 0 };
}

abbrev sub : Bytes → ℕ → SubCluster
sub name weight = record {
  name = name;
  s_type = gslb_normal;
  backends = record {
    name = name;
    backends = entry ∷ [];
    sorted = false;
    next = 0;
    slow_start_time = pos 0;
  };
  weight = pos weight;
}

abbrev subs : List SubCluster
subs = sub (b'a' ∷ []) 30 ∷ sub (b'b' ∷ []) 70 ∷ []

abbrev bal : BalanceGslb
bal = record {
  name = b'n' ∷ [];
  sub_clusters = subs;
  total_weight = pos 100;
  single = false;
  avail = 0;
  retry_max = pos 3;
  cross_retry = pos 1;
  hash_conf = record { hash_strategy = client_ip_only; hash_header = []; session_sticky = false };
  balance_mode = codes "WRR";
  epp_breaker = none;
}

abbrev conf : GslbClusterConf
conf = (b'b' ∷ [], pos 70) ∷ (b'a' ∷ [], pos 30) ∷ []

init_done : (init conf (new_balance_gslb (b'n' ∷ []))).1 ≡ done
unfolding init init_loop ◌+ℤ◌
init_done = refl

-- The sub-cluster b goes, and c comes.
abbrev new_conf : GslbClusterConf
new_conf = (b'c' ∷ [], pos 5) ∷ (b'a' ∷ [], pos 3) ∷ []

abbrev reloaded_or : BalanceGslb → Option (BalanceGslb × Outcome) → BalanceGslb
reloaded_or b none = b
reloaded_or b (some (b', o)) = b'

abbrev started : BalanceGslb
started = (init conf (new_balance_gslb (b'n' ∷ []))).0

abbrev reloaded : BalanceGslb
reloaded = reloaded_or started (reload new_conf started)

reload_done : reload new_conf started ≡ some (reloaded, done)
unfolding reload init init_loop new_balance_gslb ◌+ℤ◌ bytes_eq
reload_done = refl

reloaded-Reached : Reached reloaded
reloaded-Reached =
    by_reload new_conf started reloaded (by_init (b'n' ∷ []) conf init_done) reload_done

Reached-IsConsistent_example : IsConsistent reloaded
Reached-IsConsistent_example = Reached-IsConsistent reloaded reloaded-Reached

bal-IsConsistent : IsConsistent bal
unfolding weight_sum
bal-IsConsistent = record { total = refl; positive = omega arith; only = λ h. ground arith }

abbrev hash : Bytes → ℕ
hash key = 42

sub_cluster_balance-Owns_example :
    (i : ℕ) × (s : SubCluster) × (sub_cluster_balance hash 0 (some (b'k' ∷ [])) bal ≡ selected i)
    × (get_elem? subs i ≡ some s)
    × (has_weight s ≡ true)
    × (false ≡ false → Owns (42 % weight_sum subs) subs i)
sub_cluster_balance-Owns_example = sub_cluster_balance-Owns hash 0 (b'k' ∷ []) bal bal-IsConsistent

random_select_exclude-cases_example :
    ((i : ℕ) × (s : SubCluster) × (random_select_exclude 7 1 subs ≡ selected i)
      × (get_elem? subs i ≡ some s)
      × (may_take_over 1 i s ≡ true))
    ⊎ ((random_select_exclude 7 1 subs ≡ no_sub_cluster)
        × ((i : ℕ) (s : SubCluster) → get_elem? subs i ≡ some s → may_take_over 1 i s ≡ false))
random_select_exclude-cases_example = random_select_exclude-cases 1 7 subs

abbrev world : World
world = record {
  bal = bal;
  req = record {
    client_ip = b'c' ∷ [];
    uri = [];
    header_get = λ name. [];
    cookie = λ name. none;
    sticky = no_sticky;
    retry_time = pos 0;
    sub_cluster_name = [];
    err_code = none;
    err_msg = none;
    is_cross_cluster = none;
  };
  state = record {
    err_bk_no_sub_cluster = 0;
    err_bk_no_sub_cluster_cross = 0;
    err_bk_no_backend = 0;
    err_bk_retry_too_many = 0;
    err_gslb_blackhole = 0;
    err_epp_fallback_local = 0;
  };
}

abbrev env : GslbEnv
env = record {
  slb = record {
    clock = (λ i. record { init_time = 0; update_time = 0 });
    rand_int = 0;
    rand_uint32 = 0;
    sum64 = hash;
  };
  rand_key = b'r' ∷ [];
  rand_int31 = 0;
}

request_chosen : (balance env world).1 ≡ chosen 1 0
unfolding balance ◌+ℤ◌ ◌-ℤ◌ bytes_eq
request_chosen = refl

balance-Serves_example : Serves (balance env world).0 1 0
balance-Serves_example = balance-Serves env world 1 0 request_chosen

world-timed : AllSubsTimed world.bal.sub_clusters
world-timed = (((refl, (refl, tt))), ((refl, (refl, tt)), tt))

balance-Survives_example : (balance env world).1 ≢ panics
balance-Survives_example = balance-Survives env world bal-IsConsistent world-timed
