-- ===== src/Breaker/Examples.antt =====
-- Runs of the breaker, and the theorems about it at concrete inputs.
use bfe.Common.{ℕ, ◌≡◌, refl, true, false, List, [], ◌∷◌, arith, if◌then◌else◌}
use bfe.Common.Int.{pos}
use bfe.Breaker.{
  EppBreaker, EppBreakerConf, epp_closed, epp_open, new_epp_breaker, allow, record_result,
}
use bfe.Breaker.Invariant.{InBounds}
use bfe.Breaker.Window.{IsRing, window, push}
use bfe.Breaker.Machine.{
  Op, allows, records, configures, run, run-new-IsRing, trips_at, record_result-closed,
}
use bfe.Breaker.Cooldown.{
  AllBefore, answers, none_allowed, open_blocks, cooldown_one_probe, probe_decides,
}

abbrev conf : EppBreakerConf
conf = record {
  disabled = false;
  window_size = pos 3;
  min_volume = pos 2;
  error_rate_percent = pos 50;
  open_timeout = pos 100;
}

-- A closed breaker with one failure in its window.
abbrev breaker : EppBreaker
breaker = record {
  conf = conf;
  state = epp_closed;
  results = false ∷ false ∷ false ∷ [];
  count = 1;
  idx = 1;
  opened_at = 0;
  half_open_inflight = false;
  transitions = record { opened = 0; half_opened = 0; closed_again = 0 };
}

breaker-InBounds : InBounds breaker
breaker-InBounds = ground arith

breaker-IsRing : IsRing breaker
breaker-IsRing = record { bounds = breaker-InBounds; filling = λ _. refl }

abbrev opened : EppBreaker
opened = record breaker { state = epp_open; opened_at = 7 }

abbrev ops : List Op
ops =
    records 5 false
    ∷ records 6 false
    ∷ allows 10
    ∷ allows 200
    ∷ records 201 true
    ∷ configures conf
    ∷ []

run-new-IsRing_example : IsRing (run ops (new_epp_breaker conf))
run-new-IsRing_example = run-new-IsRing conf ops

record_result-closed_example :
    let w = push 3 false (window breaker) in
    let b' = record_result 9 false breaker in
    (window b' ≡ w)
    × (b'.state ≡ (if trips_at conf w then epp_open else epp_closed))
    × (b'.opened_at ≡ (if trips_at conf w then 9 else 0))
record_result-closed_example = record_result-closed 9 false breaker breaker-IsRing refl refl

open_blocks_example :
    none_allowed (answers (allows 8 ∷ records 9 true ∷ allows 106 ∷ []) opened) ≡ true
open_blocks_example =
    open_blocks (allows 8 ∷ records 9 true ∷ allows 106 ∷ []) opened refl refl (omega arith)
      (omega arith, (omega arith, tt))

cooldown_one_probe_example :
    ((allow 107 opened).1 ≡ true)
    × (none_allowed (answers (allows 108 ∷ allows 300 ∷ []) (allow 107 opened).0) ≡ true)
cooldown_one_probe_example =
    cooldown_one_probe 107 (allows 108 ∷ allows 300 ∷ []) opened refl refl (omega arith) tt

probe_decides_example :
    let probe = run (allows 108 ∷ []) (allow 107 opened).0 in
    ((later : ℕ)
      → ((record_result 120 true probe).state ≡ epp_closed)
        × ((record_result 120 true probe).count ≡ 0)
        × ((allow later (record_result 120 true probe)).1 ≡ true))
    × ((later : List Op)
        → AllBefore 220 later
        → none_allowed (answers later (record_result 120 false probe)) ≡ true)
probe_decides_example =
    probe_decides 107 (allows 108 ∷ []) 120 opened refl refl (omega arith) (omega arith) tt
