-- ===== src/Gslb/Epp.antt =====
-- bal_gslb.go, `BalanceEpp`, `SetGslbBasic` and `buildEPPBreakerConf`. The answer of the endpoint
-- picker, that is of `chooseBackendFromEPP`, is an argument.
use bfe.Common.{
  ℕ, suc, ◌+◌, Bool, true, false, Option, none, some, List, [], ◌∷◌, Bytes, codes, if◌then◌else◌,
  bytes_eq, ◌&&◌,
}
use bfe.Common.Int.{ℤ, pos, ltb_ℤ}
use bfe.Slb.Balancer.{ok, err}
use bfe.Slb.Sticky.{look_up_backend}
use bfe.Breaker.{EppBreaker, EppBreakerConf, allow, record_result, new_epp_breaker, update_conf}
use bfe.Gslb.{SubCluster, BalanceGslb, HashConf}
use bfe.Gslb.Balance.{World}

-- The optional fields of cluster_conf.EPPBreakerConf, with the duration parsed.
pub record EppBreakerFields : Type 0 where
  pub disabled : Bool
  pub window_size : Option ℤ
  pub min_volume : Option ℤ
  pub error_rate_percent : Option ℤ
  pub open_timeout : ℤ

abbrev given : ℤ → Option ℤ → ℤ
given default none = default
given default (some n) = n

unfoldable pub build_epp_breaker_conf : Option EppBreakerFields → EppBreakerConf
build_epp_breaker_conf none = record {
  disabled = false;
  window_size = pos 100;
  min_volume = pos 20;
  error_rate_percent = pos 50;
  open_timeout = pos 30000000000;
}
build_epp_breaker_conf (some f) = record {
  disabled = f.disabled;
  window_size = given (pos 100) f.window_size;
  min_volume = given (pos 20) f.min_volume;
  error_rate_percent = given (pos 50) f.error_rate_percent;
  open_timeout = f.open_timeout;
}

-- cluster_conf.GslbBasicConf, its pointers followed; `epp_addr` is empty where there is none.
pub record GslbBasicConf : Type 0 where
  pub cross_retry : ℤ
  pub retry_max : ℤ
  pub hash_conf : HashConf
  pub balance_mode : Bytes
  pub epp_addr : List Bytes
  pub epp_breaker : Option EppBreakerFields

-- The breaker after `initEPP`: a new one, or the old one with its new configuration.
unfoldable pub init_breaker : Option EppBreakerFields → Option EppBreaker → EppBreaker
unfolding build_epp_breaker_conf
init_breaker fields none = new_epp_breaker (build_epp_breaker_conf fields)
init_breaker fields (some b) = update_conf (build_epp_breaker_conf fields) b

abbrev has_addr : List Bytes → Bool
has_addr [] = false
has_addr (a ∷ as') = true

-- `to_upper` is strings.ToUpper. Outside the EPP mode, and without an address, `closeEPP` drops the
-- breaker.
unfoldable pub set_gslb_basic : (Bytes → Bytes) → GslbBasicConf → BalanceGslb → BalanceGslb
unfolding init_breaker
set_gslb_basic to_upper conf bal = record bal {
  cross_retry = conf.cross_retry;
  retry_max = conf.retry_max;
  hash_conf = conf.hash_conf;
  balance_mode = conf.balance_mode;
  epp_breaker =
      if bytes_eq (to_upper conf.balance_mode) (codes "EPP") && has_addr conf.epp_addr
      then some (init_breaker conf.epp_breaker bal.epp_breaker)
      else none;
}

-- A backend of a sub-cluster, a temporary one made from the address, or an error.
pub data EppAnswer : Type 0 where
  epp_chosen : ℕ → ℕ → EppAnswer
  epp_temporary : Bytes → EppAnswer
  retry_too_many breaker_open no_decision : EppAnswer

-- The first sub-cluster that has an eligible backend at the address.
unfoldable pub look_up_in_subs : Bytes → ℕ → List SubCluster → Option (ℕ × ℕ × Bytes)
unfolding look_up_backend
look_up_in_subs addr i [] = none
look_up_in_subs addr i (s ∷ ss) =
    let rest = look_up_in_subs addr (suc i) ss in
    elim (look_up_backend addr s.backends) [ ok j ↦ some (i, j, s.name) | err e ↦ rest ]

abbrev fall_back : World → World
fall_back w = record w {
  state = record (w.state) { err_epp_fallback_local = w.state.err_epp_fallback_local + 1 };
}

unfoldable pub follow_epp : Bytes → World → World × EppAnswer
unfolding look_up_in_subs
follow_epp [] w = (w, no_decision)
follow_epp (c ∷ cs) w = elim (look_up_in_subs (c ∷ cs) 0 w.bal.sub_clusters) [
  | some (i, j, name) ↦
      (record w { req = record (w.req) { sub_cluster_name = name } }, epp_chosen i j)
  | none ↦ (w, epp_temporary (c ∷ cs))
]

-- The breaker lets the request through or not, and hears of the result: `none` is an error of EPP.
abbrev with_breaker : Option EppBreaker → World → World
with_breaker b w = record w { bal = record (w.bal) { epp_breaker = b } }

unfoldable pub may_call_epp : ℕ → Option EppBreaker → Option EppBreaker × Bool
may_call_epp now none = (none, true)
may_call_epp now (some b) = let (b', allowed) = allow now b in (some b', allowed)

unfoldable pub record_epp : ℕ → Bool → Option EppBreaker → Option EppBreaker
record_epp now success none = none
record_epp now success (some b) = some (record_result now success b)

unfoldable pub epp_answered : ℕ → Option Bytes → World → World × EppAnswer
unfolding record_epp follow_epp
epp_answered now none w =
    (fall_back (with_breaker (record_epp now false w.bal.epp_breaker) w), no_decision)
epp_answered now (some addr) w =
    follow_epp addr (with_breaker (record_epp now true w.bal.epp_breaker) w)

-- `asked` and `answered` are the times of the two calls of the breaker.
unfoldable pub balance_epp : ℕ → ℕ → Option Bytes → World → World × EppAnswer
unfolding may_call_epp epp_answered
balance_epp asked answered epp w =
    let (breaker, allowed) = may_call_epp asked w.bal.epp_breaker in
    let w' = with_breaker breaker w in
    if ltb_ℤ w.bal.retry_max w.req.retry_time
    then (
      fall_back (record w {
        state = record (w.state) { err_bk_retry_too_many = w.state.err_bk_retry_too_many + 1 };
      }),
      retry_too_many,
    )
    else if allowed
    then epp_answered answered epp w'
    else (fall_back w', breaker_open)
