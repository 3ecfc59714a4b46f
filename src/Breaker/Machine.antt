-- ===== src/Breaker/Machine.antt =====
-- The breaker as a state machine over the calls that BalanceEpp makes of it.
use mathlib.Core.Path.{ap₂, subst}
use native.Mathlib.Decide.{dec_lt}
use native.Mathlib.Nat.{mod-eq_of_lt}
use bfe.Common.{
  ℕ, ◌+◌, ◌*◌, ◌≡◌, refl, sym, ap, ◌∙◌, Bool, true, false, not, ◌&&◌, List, [], ◌∷◌, if◌then◌else◌,
  arith, length, length-set, length-replicate,
}
use bfe.Common.Int.{pos, pos_part, ◌*ℤ◌, ltb_ℤ, leb_ℤ}
use bfe.Breaker.{
  EppBreaker, EppBreakerConf, EppBreakerState, epp_closed, epp_open, epp_half_open, new_epp_breaker,
  update_conf, allow, append_result, trips, record_in, record_result, set_state_locked,
  normalize_epp_breaker_conf,
}
use bfe.Breaker.Invariant.{new_epp_breaker-InBounds, append_result-InBounds}
use bfe.Breaker.Window.{
  IsRing, window, push, errors, window-append_result, count_errors-window, length-window,
}

new_epp_breaker-IsRing : (conf : EppBreakerConf) → IsRing (new_epp_breaker conf)
unfolding new_epp_breaker
new_epp_breaker-IsRing conf = record { bounds = new_epp_breaker-InBounds conf; filling = λ _. refl }

if_IsRing : {b c : EppBreaker} (t : Bool) → IsRing b → IsRing c → IsRing (if t then b else c)
if_IsRing true h k = h
if_IsRing false h k = k

append_result-IsRing : (ok : Bool) (b : EppBreaker) → IsRing b → IsRing (append_result ok b)
unfolding append_result
append_result-IsRing ok b r = record {
  bounds = append_result-InBounds ok b r.bounds;
  filling = λ h. elim (dec_lt (b.idx + 1) (length b.results)) [
    | yes p ↦ mod-eq_of_lt p ∙ ground (arith, length-set b.results b.idx ok)
    | no p ↦ absurd (ground (arith, length-set b.results b.idx ok))
  ];
}

set_state_locked-IsRing :
    (now : ℕ) (s : EppBreakerState) (b : EppBreaker) → IsRing b → IsRing (set_state_locked now s b)
unfolding set_state_locked
set_state_locked-IsRing now s b r = ground arith

record_in-IsRing :
    (s : EppBreakerState) (now : ℕ) (ok : Bool) (b : EppBreaker)
    → IsRing b
    → IsRing (record_in s now ok b)
unfolding record_in
record_in-IsRing epp_open now ok b r = r
record_in-IsRing epp_half_open now ok b r =
    set_state_locked-IsRing now (if ok then epp_closed else epp_open)
      (record b { half_open_inflight = false })
      (record { bounds = ground arith; filling = r.filling })
record_in-IsRing epp_closed now ok b r =
    let r' = append_result-IsRing ok b r in
    if_IsRing (trips (append_result ok b)) (set_state_locked-IsRing now epp_open _ r') r'

pub data Op : Type 0 where
  -- a call of `allow` or of `record` at a time, and a new configuration
  allows : ℕ → Op
  records : ℕ → Bool → Op
  configures : EppBreakerConf → Op

unfoldable pub step : Op → EppBreaker → EppBreaker
step (allows now) b = (allow now b).0
step (records now ok) b = record_result now ok b
step (configures conf) b = update_conf conf b

unfoldable pub run : List Op → EppBreaker → EppBreaker
run [] b = b
run (o ∷ os) b = run os (step o b)

step-IsRing : (o : Op) (b : EppBreaker) → IsRing b → IsRing (step o b)
unfolding step allow record_result update_conf
step-IsRing (allows now) b r = ground arith
step-IsRing (records now ok) b r = if_IsRing b.conf.disabled r (record_in-IsRing b.state now ok b r)
step-IsRing (configures conf) b r =
    ground (arith, length-replicate (pos_part (normalize_epp_breaker_conf conf).window_size) false)

run-IsRing : (os : List Op) (b : EppBreaker) → IsRing b → IsRing (run os b)
unfolding run
run-IsRing [] b r = r
run-IsRing (o ∷ os) b r = run-IsRing os (step o b) (step-IsRing o b r)

-- From a new breaker, under any calls, the ring keeps its configured size, its write position and
-- its count stay inside it, and it is filled from its start.
pub run-new-IsRing : (conf : EppBreakerConf) (os : List Op) → IsRing (run os (new_epp_breaker conf))
run-new-IsRing conf os = run-IsRing os _ (new_epp_breaker-IsRing conf)

-- Enough calls in the window, and too many of them failed.
abbrev pub trips_at : EppBreakerConf → List Bool → Bool
trips_at conf w =
    not (ltb_ℤ (pos (length w)) conf.min_volume)
    && leb_ℤ (conf.error_rate_percent *ℤ pos (length w)) (pos (errors w * 100))

trips-window : (b : EppBreaker) → IsRing b → trips b ≡ trips_at b.conf (window b)
unfolding trips
trips-window b r = rw (count_errors-window b r, length-window b r)

append_result_keeps :
    (ok : Bool) (b : EppBreaker)
    → ((append_result ok b).state ≡ b.state)
      × ((append_result ok b).conf ≡ b.conf)
      × ((append_result ok b).opened_at ≡ b.opened_at)
unfolding append_result
append_result_keeps ok b = (refl, refl, refl)

opened_if :
    (now : ℕ) (t : Bool) (b : EppBreaker)
    → b.state ≡ epp_closed
    → let b' = if t then set_state_locked now epp_open b else b in
      (window b' ≡ window b)
      × (b'.state ≡ (if t then epp_open else epp_closed))
      × (b'.opened_at ≡ (if t then now else b.opened_at))
unfolding set_state_locked
opened_if now true b c = rw c (refl, refl, refl)
opened_if now false b c = (refl, c, refl)

record_result-eq :
    (now : ℕ) (ok : Bool) (b : EppBreaker)
    → b.state ≡ epp_closed
    → b.conf.disabled ≡ false
    → record_result now ok b ≡ (
        if trips (append_result ok b)
        then set_state_locked now epp_open (append_result ok b)
        else append_result ok b)
unfolding record_result
record_result-eq now ok b c d = simp d (simp c)

-- A result that a closed, enabled breaker records joins the window of the latest results, the
-- oldest one leaving a full window; the breaker opens, from that moment, exactly if the new window
-- has at least `minVolume` results of which at least `errorRatePercent` percent failed.
pub record_result-closed :
    (now : ℕ) (ok : Bool) (b : EppBreaker)
    → IsRing b
    → b.state ≡ epp_closed
    → b.conf.disabled ≡ false
    → let w = push (length b.results) ok (window b) in
      let b' = record_result now ok b in
      (window b' ≡ w)
      × (b'.state ≡ (if trips_at b.conf w then epp_open else epp_closed))
      × (b'.opened_at ≡ (if trips_at b.conf w then now else b.opened_at))
record_result-closed now ok b r c d =
    let b' = append_result ok b in
    let k = append_result_keeps ok b in
    let (w, t, o) = opened_if now (trips b') b' (k.0 ∙ c) in
    let test = trips-window b' (append_result-IsRing ok b r) in
    let win = window-append_result ok b r in
    let same : trips b' ≡ trips_at b.conf (push (length b.results) ok (window b)) =
      test ∙ ap₂ trips_at k.1 win in
    subst Closed (sym (record_result-eq now ok b c d)) (
      w ∙ win,
      t ∙ ap (λ x. if x then epp_open else epp_closed) same,
      o ∙ ap₂ (λ x n. if x then now else n) same k.2,
    )
  where
    Closed : EppBreaker → Type 0
    Closed b' =
        (window b' ≡ push (length b.results) ok (window b))
        × (b'.state ≡ (
            if trips_at b.conf (push (length b.results) ok (window b))
            then epp_open
            else epp_closed))
        × (b'.opened_at ≡ (
            if trips_at b.conf (push (length b.results) ok (window b)) then now else b.opened_at))
