-- ===== src/Backend/Examples.antt =====
-- Runs of the backend's operations and of its checkers, and the theorems at concrete inputs.
use bfe.Common.{◌≡◌, refl, Bool, true, false, some, List, [], ◌∷◌, arith, inl, inr, none}
use bfe.Common.Int.{pos}
use bfe.Backend.{
  BfeBackend, open_chan, on_fail, update_status, add_fail_num, set_avail, update_status_by_conf,
}
use bfe.Backend.Checker.{
  System, Event, counts_failure, fails, probes, checks, restarts, recovers, IsWatched, run,
  run-IsWatched,
}
use bfe.Backend.Recovery.{
  Round, HasEnded, is_deleted, probes_of, check, has_good_run, check-HasEnded,
}

abbrev back : BfeBackend
back = record {
  name = b'1' ∷ [];
  addr = b'h' ∷ [];
  port = 80;
  addr_info = b'h' ∷ b':' ∷ b'8' ∷ b'0' ∷ [];
  sub_cluster = b's' ∷ [];
  avail = true;
  restarted = false;
  conn_num = pos 0;
  fail_num = 0;
  succ_num = 0;
  close_chan = open_chan;
}

-- The third failure in a row takes the backend down.
third_failure : ((on_fail (some 3) (record back { fail_num = 2 })).0).avail ≡ false
unfolding on_fail add_fail_num update_status_by_conf update_status set_avail
third_failure = refl

second_failure : ((on_fail (some 3) (record back { fail_num = 1 })).0).avail ≡ true
unfolding on_fail add_fail_num update_status_by_conf update_status set_avail
second_failure = refl

abbrev system : System
system = record { back = back; failing = 0; probing = 0; counted = 0; passed = 0; restarting = 0 }

system-IsWatched : IsWatched system
system-IsWatched = record {
  at_most_one = omega arith;
  none_if_up = λ _. refl;
  one_if_down = λ h _. ground arith;
}

abbrev events : List Event
events =
    counts_failure
    ∷ counts_failure
    ∷ fails (some 1)
    ∷ probes true
    ∷ fails (some 1)
    ∷ checks 2
    ∷ probes false
    ∷ probes true
    ∷ checks 1
    ∷ restarts
    ∷ recovers
    ∷ []

run-IsWatched_example : IsWatched (run events system)
run-IsWatched_example = run-IsWatched events system system-IsWatched

abbrev round : Bool → Round
round ok = record { closed = false; conf = some 2; ok = ok }

-- Two good probes in a row, with a round without a check conf between them.
abbrev rounds : List Round
rounds =
    round true
    ∷ round false
    ∷ round true
    ∷ (record { closed = false; conf = none; ok = false })
    ∷ round true
    ∷ []

check-HasEnded_example :
    HasEnded (is_deleted rounds) (has_good_run 2 (probes_of rounds)) (check rounds back)
check-HasEnded_example =
    check-HasEnded 2 rounds back (omega arith) refl
      (inr refl, (inr refl, (inr refl, (inl refl, (inr refl, tt)))))
