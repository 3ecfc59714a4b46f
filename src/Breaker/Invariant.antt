-- ===== src/Breaker/Invariant.antt =====
-- The ring buffer of the breaker stays in bounds.
use bfe.Common.{ℕ, ◌≤◌, ◌<◌, ◌≡◌, Bool, false, arith, length, length-set, length-replicate}
use bfe.Common.Int.{pos_part}
use bfe.Breaker.{
  EppBreaker, EppBreakerConf, new_epp_breaker, update_conf, allow, append_result, record_result,
  normalize_epp_breaker_conf,
}

-- The ring has its configured size, which is not 0, and `count` and `idx` are within it.
pub record InBounds (b : EppBreaker) : Type 0 where
  pub size : length b.results ≡ pos_part b.conf.window_size
  pub size_pos : 0 < length b.results
  pub count_le : b.count ≤ length b.results
  pub idx_lt : b.idx < length b.results

pub new_epp_breaker-InBounds : (conf : EppBreakerConf) → InBounds (new_epp_breaker conf)
unfolding new_epp_breaker
new_epp_breaker-InBounds conf =
    ground (arith, length-replicate (pos_part (normalize_epp_breaker_conf conf).window_size) false)

pub update_conf-InBounds :
    (conf : EppBreakerConf) (b : EppBreaker) → InBounds b → InBounds (update_conf conf b)
unfolding update_conf
update_conf-InBounds conf b v =
    ground (arith, length-replicate (pos_part (normalize_epp_breaker_conf conf).window_size) false)

pub allow-InBounds : (now : ℕ) (b : EppBreaker) → InBounds b → InBounds (allow now b).0
unfolding allow
allow-InBounds now b v = ground arith

pub append_result-InBounds :
    (ok : Bool) (b : EppBreaker) → InBounds b → InBounds (append_result ok b)
unfolding append_result
append_result-InBounds ok b v = ground (arith, length-set b.results b.idx ok)

pub record_result-InBounds :
    (now : ℕ) (ok : Bool) (b : EppBreaker) → InBounds b → InBounds (record_result now ok b)
unfolding record_result
record_result-InBounds now ok b v = ground (arith, length-set b.results b.idx ok)
