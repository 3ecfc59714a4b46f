-- ===== src/Backend/Checker.antt =====
-- health_check.go, `check`, and OnFail beside it: `UpdateStatus` starts a checker goroutine when a
-- backend goes down, the checker probes until it has seen enough successes, and brings the backend
-- up. Each event is one critical section, and events of all sides interleave freely. `failing` counts
-- the requests between AddFailNum and UpdateStatus; `probing`, `counted`, `passed` and `restarting`
-- the checkers at the head of the loop, before CheckAvail, before SetRestart, and before SetAvail.
use bfe.Common.{
  ℕ, ◌+◌, ◌-◌, ◌≤◌, ◌≡◌, Bool, true, false, ◌&&◌, Option, none, some, List, [], ◌∷◌, arith, ltb,
  if◌then◌else◌,
}
use bfe.Backend.{
  BfeBackend, closed_chan, release, update_status_by_conf, add_fail_num, on_success, add_succ_num,
  reset_succ_num, check_avail, set_restart, set_avail,
}

pub record System : Type 0 where
  pub back : BfeBackend
  pub failing : ℕ
  pub probing : ℕ
  pub counted : ℕ
  pub passed : ℕ
  pub restarting : ℕ

pub data Event : Type 0 where
  -- AddFailNum, and then UpdateStatus with the check conf that it reads
  counts_failure : Event
  fails : Option ℕ → Event
  succeeds : Event
  -- a checker's probe, with ResetSuccNum or AddSuccNum, and CheckAvail with the SuccNum it has read
  probes : Bool → Event
  checks : ℕ → Event
  -- SetRestart, SetAvail
  restarts : Event
  recovers : Event
  deleted : Event
  stops : Event

abbrev is_closed : BfeBackend → Bool
is_closed b = elim b.close_chan [ closed_chan ↦ true | _ ↦ false ]

pub fail_step : Option ℕ → System → System
unfolding update_status_by_conf
fail_step conf s =
    let (b, start) = update_status_by_conf conf s.back in
    record s {
      back = b;
      failing = s.failing - 1;
      probing = if start then s.probing + 1 else s.probing;
    }

-- A failed probe resets the successes, a good one counts.
unfoldable pub probe_step : Bool → System → System
unfolding add_succ_num reset_succ_num
probe_step ok s =
    if ok
    then record s { back = add_succ_num s.back; probing = s.probing - 1; counted = s.counted + 1 }
    else record s { back = reset_succ_num s.back }

-- The loop ends when there are enough successes.
unfoldable pub check_step : ℕ → System → System
unfolding check_avail
check_step succ_threshold s =
    let (b, done) = check_avail succ_threshold s.back in
    if done
    then record s { back = b; counted = s.counted - 1; passed = s.passed + 1 }
    else record s { back = b; counted = s.counted - 1; probing = s.probing + 1 }

abbrev after_release : System → Option BfeBackend → System
after_release s none = s
after_release s (some b) = record s { back = b }

-- An event of a request or of a checker that does not exist changes nothing. A panic of `Close` ends
-- the program.
pub step : Event → System → System
unfolding add_fail_num fail_step on_success probe_step check_step set_restart set_avail release
step counts_failure s = record s { back = add_fail_num s.back; failing = s.failing + 1 }
step (fails conf) s = if ltb 0 s.failing then fail_step conf s else s
step succeeds s = record s { back = on_success s.back }
step (probes ok) s = if ltb 0 s.probing then probe_step ok s else s
step (checks succ_threshold) s = if ltb 0 s.counted then check_step succ_threshold s else s
step restarts s =
    if ltb 0 s.passed
    then record s {
      back = set_restart true s.back;
      passed = s.passed - 1;
      restarting = s.restarting + 1;
    }
    else s
step recovers s =
    if ltb 0 s.restarting
    then record s { back = set_avail true s.back; restarting = s.restarting - 1 }
    else s
step deleted s = after_release s (release s.back)
step stops s =
    if is_closed s.back && ltb 0 s.probing then record s { probing = s.probing - 1 } else s

pub run : List Event → System → System
run [] s = s
run (e ∷ es) s = run es (step e s)

-- The checkers that there are.
abbrev pub checkers : System → ℕ
checkers s = s.probing + s.counted + (s.passed + s.restarting)

-- One checker for a backend that is down and none for one that is up; a checker of a deleted
-- backend may have stopped.
pub record IsWatched (s : System) : Type 0 where
  pub at_most_one : checkers s ≤ 1
  pub none_if_up : s.back.avail ≡ true → checkers s ≡ 0
  pub one_if_down : s.back.avail ≡ false → is_closed s.back ≡ false → checkers s ≡ 1

pub step-IsWatched : (e : Event) (s : System) → IsWatched s → IsWatched (step e s)
unfolding step
step-IsWatched counts_failure s w = ground arith
step-IsWatched (fails none) s w = ground arith
step-IsWatched (fails (some n)) s w = ground arith
step-IsWatched succeeds s w = ground arith
step-IsWatched (probes ok) s w = ground arith
step-IsWatched (checks n) s w = ground arith
step-IsWatched restarts s w = ground arith
step-IsWatched recovers s w = ground arith
step-IsWatched deleted s w = ground arith
step-IsWatched stops s w = ground arith

-- Under every interleaving of requests, probes, recoveries and deletion, a watched backend stays
-- watched: never two checkers at once, none while it is available, and exactly one while it is
-- unavailable and not deleted.
pub run-IsWatched : (es : List Event) (s : System) → IsWatched s → IsWatched (run es s)
unfolding run
run-IsWatched [] s w = w
run-IsWatched (e ∷ es) s w = run-IsWatched es (step e s) (step-IsWatched e s w)
