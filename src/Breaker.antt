-- ===== src/Breaker.antt =====
-- bfe_balance/bal_gslb/epp_breaker.go: the sliding-window circuit breaker of the path to the
-- endpoint picker (EPP). Every method holds the mutex from start to end. Durations and times are
-- nanoseconds, and `now` is the clock at the call, which does not run backwards; logging is left
-- out, and the counters of transitions are those of BalErrState.
pub mod Window
pub mod Invariant
pub mod Machine
pub mod Cooldown
pub mod Examples
use bfe.Common.{
  ℕ, zero, suc, ◌+◌, ◌-◌, ◌*◌, ◌%◌, Bool, true, false, ◌&&◌, ◌||◌, not, List, [], ◌∷◌, leb, ltb,
  ◌==◌, if◌then◌else◌, set, length, replicate,
}
use bfe.Common.Int.{ℤ, pos, pos_part, ◌*ℤ◌, leb_ℤ, ltb_ℤ, eqb_ℤ}

pub record EppBreakerConf : Type 0 where
  pub disabled : Bool
  pub window_size : ℤ
  pub min_volume : ℤ
  pub error_rate_percent : ℤ
  pub open_timeout : ℤ

pub data EppBreakerState : Type 0 where
  epp_closed epp_open epp_half_open : EppBreakerState

-- ErrEppBreakerOpen, ErrEppBreakerHalfOpen, ErrEppBreakerClosed.
pub record Transitions : Type 0 where
  pub opened : ℕ
  pub half_opened : ℕ
  pub closed_again : ℕ

pub record EppBreaker : Type 0 where
  pub conf : EppBreakerConf
  pub state : EppBreakerState
  pub results : List Bool
  pub count : ℕ
  pub idx : ℕ
  pub opened_at : ℕ
  pub half_open_inflight : Bool
  pub transitions : Transitions

abbrev at_least_one : ℤ → ℤ
at_least_one n = if ltb_ℤ n (pos 1) then pos 1 else n

pub normalize_epp_breaker_conf : EppBreakerConf → EppBreakerConf
normalize_epp_breaker_conf conf = record conf {
  window_size = at_least_one conf.window_size;
  min_volume = at_least_one conf.min_volume;
  error_rate_percent =
      if ltb_ℤ conf.error_rate_percent (pos 1) || ltb_ℤ (pos 100) conf.error_rate_percent
      then pos 50
      else conf.error_rate_percent;
  open_timeout = if leb_ℤ conf.open_timeout (pos 0) then pos 30000000000 else conf.open_timeout;
}

-- make([]bool, size)
abbrev pub make_results : ℤ → List Bool
make_results size = replicate (pos_part size) false

pub new_epp_breaker : EppBreakerConf → EppBreaker
unfolding normalize_epp_breaker_conf
new_epp_breaker conf =
    let conf' = normalize_epp_breaker_conf conf in
    record {
      conf = conf';
      state = epp_closed;
      results = make_results conf'.window_size;
      count = 0;
      idx = 0;
      opened_at = 0;
      half_open_inflight = false;
      transitions = record { opened = 0; half_opened = 0; closed_again = 0 };
    }

abbrev bool_eq : Bool → Bool → Bool
bool_eq true b = b
bool_eq false b = not b

pub conf_eq : EppBreakerConf → EppBreakerConf → Bool
conf_eq a b =
    bool_eq a.disabled b.disabled
    && eqb_ℤ a.window_size b.window_size
    && eqb_ℤ a.min_volume b.min_volume
    && eqb_ℤ a.error_rate_percent b.error_rate_percent
    && eqb_ℤ a.open_timeout b.open_timeout

pub update_conf : EppBreakerConf → EppBreaker → EppBreaker
unfolding normalize_epp_breaker_conf conf_eq
update_conf conf b =
    let conf' = normalize_epp_breaker_conf conf in
    if conf_eq b.conf conf'
    then b
    else record b { conf = conf'; results = make_results conf'.window_size; count = 0; idx = 0 }

state_eq : EppBreakerState → EppBreakerState → Bool
state_eq epp_closed epp_closed = true
state_eq epp_open epp_open = true
state_eq epp_half_open epp_half_open = true
state_eq s t = false

-- setStateLocked, past its early return.
enter : ℕ → EppBreakerState → EppBreaker → EppBreaker
enter now epp_closed b = record b {
  state = epp_closed;
  count = 0;
  idx = 0;
  transitions = record (b.transitions) { closed_again = b.transitions.closed_again + 1 };
}
enter now epp_open b = record b {
  state = epp_open;
  opened_at = now;
  transitions = record (b.transitions) { opened = b.transitions.opened + 1 };
}
enter now epp_half_open b = record b {
  state = epp_half_open;
  transitions = record (b.transitions) { half_opened = b.transitions.half_opened + 1 };
}

pub set_state_locked : ℕ → EppBreakerState → EppBreaker → EppBreaker
unfolding state_eq enter
set_state_locked now s b = if state_eq b.state s then b else enter now s b

allow_in : EppBreakerState → ℕ → EppBreaker → EppBreaker × Bool
unfolding set_state_locked
allow_in epp_closed now b = (b, true)
allow_in epp_open now b =
    if leb_ℤ b.conf.open_timeout (pos (now - b.opened_at))
    then (record (set_state_locked now epp_half_open b) { half_open_inflight = true }, true)
    else (b, false)
allow_in epp_half_open now b =
    if b.half_open_inflight then (b, false) else (record b { half_open_inflight = true }, true)

-- The breaker after the call, and whether the request may go to EPP.
pub allow : ℕ → EppBreaker → EppBreaker × Bool
unfolding allow_in
allow now b = if b.conf.disabled then (b, true) else allow_in b.state now b

pub count_errors : List Bool → ℕ → ℕ
count_errors rs zero = 0
count_errors [] (suc n) = 0
count_errors (r ∷ rs) (suc n) = if r then count_errors rs n else suc (count_errors rs n)

-- The write into the ring.
pub append_result : Bool → EppBreaker → EppBreaker
append_result success b = record b {
  results = set b.results b.idx success;
  idx = (b.idx + 1) % length b.results;
  count = if ltb b.count (length b.results) then b.count + 1 else b.count;
}

-- The two tests after it: enough calls, and too many of them failed.
pub trips : EppBreaker → Bool
unfolding count_errors
trips b =
    not (ltb_ℤ (pos b.count) b.conf.min_volume)
    && leb_ℤ (b.conf.error_rate_percent *ℤ pos b.count) (pos (count_errors b.results b.count * 100))

record_in : EppBreakerState → ℕ → Bool → EppBreaker → EppBreaker
unfolding set_state_locked append_result trips
record_in epp_open now success b = b
record_in epp_half_open now success b =
    set_state_locked now (if success then epp_closed else epp_open)
      (record b { half_open_inflight = false })
record_in epp_closed now success b =
    let b' = append_result success b in if trips b' then set_state_locked now epp_open b' else b'

-- `record` is a reserved word.
pub record_result : ℕ → Bool → EppBreaker → EppBreaker
unfolding record_in
record_result now success b = if b.conf.disabled then b else record_in b.state now success b
