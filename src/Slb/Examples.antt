-- ===== src/Slb/Examples.antt =====
-- Runs of the balancer of a sub-cluster, and the theorems about it at concrete inputs.
use bfe.Common.{
  ℕ, zero, suc, ◌≡◌, ◌<◌, ◌+◌, ◌*◌, ◌⊎◌, refl, Bool, true, false, some, [], ◌∷◌, arith, get_elem?,
  Bytes, ◌++◌, map,
}
use bfe.Common.Int.{pos, ◌+ℤ◌, ◌-ℤ◌, ◌*ℤ◌, ◌≤ℤ◌}
use bfe.Backend.{BfeBackend, open_chan}
use bfe.Slb.Backends.{BackendRr}
use bfe.Slb.Balancer.{
  BackendList, BalanceRr, ok, err, all_backends_down, is_eligible, reset_weight, release_all,
}
use bfe.Slb.Smooth.{smooth_balance, smooth_loop, charge, consider}
use bfe.Slb.Smooth.Loop.{takes_part, total_from, bump_from}
use bfe.Slb.Smooth.Choice.{smooth_balance-ok, smooth_balance-err}
use bfe.Slb.Smooth.Rounds.{smooth_rounds, count, all}
use bfe.Slb.Smooth.Fair.{weight_sum}
use bfe.Slb.Smooth.Share.{smooth_share, smooth_cycle}
use bfe.Slb.Simple.{simple_balance}
use bfe.Slb.Simple.Round.{is_usable, NoNegativeWeight}
use bfe.Slb.Simple.Laps.{simple_balance-Ends}
use bfe.Slb.Sticky.{sticky_select}
use bfe.Slb.Sticky.Choice.{sticky_select-cases}
use bfe.Common.{◌*◌, ◌≤◌, leb}
use bfe.Slb.LeastConns.{least_conns_balance, least_conns_loop, compare_candidate, comp_lc_weight}
use bfe.Slb.LeastConns.Best.{conns, weight}
use bfe.Slb.LeastConns.Minimal.{AllCounted, least_conns_balance-LeastAt}
use bfe.Slb.Balance.{Env, balance, wlc_smooth}
use bfe.Slb.Balance.Avail.{AvailAt, balance-AvailAt}
use bfe.Slb.Backends.{slow_start_weight}
use bfe.Slb.Balancer.{slow_start_round, Readings}
use bfe.Slb.SlowStart.{slow_start_round-restarted}
use bfe.Slb.SlowStart.Runs.{looks, is_over, last_ramp, looks-restarted}
use bfe.Common.Int.{negsuc}
use bfe.Backend.{BackendConf}
use bfe.Common.{bytes_eq, decimal, List, Option, length, none}
use bfe.Slb.Update.{update, conf_map_make, restarted_of_conf}
use bfe.Slb.Update.Keeps.{Distinct, kept_by, dropped_by, without, update-kept_by}

abbrev backend_at : Bytes → Bool → BfeBackend
backend_at name avail = record {
  name = name;
  addr = name;
  port = 80;
  addr_info = name;
  sub_cluster = b's' ∷ [];
  avail = avail;
  restarted = false;
  conn_num = pos 0;
  fail_num = 0;
  succ_num = 0;
  close_chan = open_chan;
}

abbrev entry : Bytes → Bool → ℕ → BackendRr
entry name avail weight = record {
  weight = pos weight;
  current = pos weight;
  backend = backend_at name avail;
  in_slow_start = false;
  weight_ss = record { final = pos weight; slow_start_time = pos 0; start_time = 0 };
}

abbrev first : BackendRr
first = entry (b'a' ∷ []) true 3

abbrev backends : BackendList
backends = first ∷ entry (b'b' ∷ []) false 9 ∷ entry (b'c' ∷ []) true 1 ∷ []

abbrev down : BackendList
down = entry (b'b' ∷ []) false 9 ∷ []

-- The runs of smooth round robin: the heavy backend three times out of four.
four_requests : (smooth_rounds 4 backends).1 ≡ 0 ∷ 0 ∷ 2 ∷ 0 ∷ []
unfolding smooth_rounds smooth_balance smooth_loop charge consider ◌+ℤ◌ ◌-ℤ◌
four_requests = refl

smooth_cycle_example :
    (count 0 (smooth_rounds (weight_sum backends) (reset_weight backends)).1 ≡ 3)
    × (get_elem? (smooth_rounds (weight_sum backends) (reset_weight backends)).0 0
        ≡ get_elem? (reset_weight backends) 0)
smooth_cycle_example = smooth_cycle backends 0 first refl refl

smooth_share_example :
    weight_sum backends * count 0 (smooth_rounds 7 (reset_weight backends)).1
    < 7 * 3 + weight_sum backends
smooth_share_example = smooth_share backends 0 first refl refl 7

first_chosen : smooth_balance all backends ≡ ((smooth_balance all backends).0, ok 0)
unfolding smooth_balance smooth_loop charge consider ◌+ℤ◌ ◌-ℤ◌
first_chosen = refl

smooth_balance-ok_example :
    (b : BackendRr) × (get_elem? backends 0 ≡ some b)
    × (takes_part all 0 b ≡ true)
    × ((k : ℕ) (c : BackendRr)
        → get_elem? backends k ≡ some c
        → takes_part all k c ≡ true
        → c.current ≤ℤ b.current)
    × ((smooth_balance all backends).0
        ≡ charge (total_from all 0 backends) 0 (bump_from all 0 backends))
smooth_balance-ok_example =
    smooth_balance-ok all backends (smooth_balance all backends).0 0 first_chosen

none_chosen : smooth_balance all down ≡ (down, err all_backends_down)
unfolding smooth_balance smooth_loop charge consider ◌+ℤ◌ ◌-ℤ◌
none_chosen = refl

smooth_balance-err_example :
    (down ≡ down)
    × ((k : ℕ) (c : BackendRr) → get_elem? down k ≡ some c → takes_part all k c ≡ false)
smooth_balance-err_example = smooth_balance-err all down down none_chosen

abbrev brr : BalanceRr
brr = record {
  name = b's' ∷ [];
  backends = backends;
  sorted = false;
  next = 1;
  slow_start_time = pos 0;
}

backends-NoNegativeWeight : NoNegativeWeight backends
backends-NoNegativeWeight zero b g = ground arith
backends-NoNegativeWeight (suc zero) b g = ground arith
backends-NoNegativeWeight (suc (suc zero)) b g = ground arith
backends-NoNegativeWeight (suc (suc (suc k))) b g = ground arith

simple_balance-Ends_example :
    ((i : ℕ) × (b : BackendRr) × ((simple_balance brr).1 ≡ ok i)
      × (get_elem? backends i ≡ some b)
      × (b.backend.avail ≡ true))
    ⊎ (((simple_balance brr).1 ≡ err all_backends_down)
        × ((p : ℕ) (b : BackendRr) → get_elem? backends p ≡ some b → is_usable b ≡ false))
simple_balance-Ends_example = simple_balance-Ends brr (omega arith) backends-NoNegativeWeight

abbrev sum64 : Bytes → ℕ
sum64 key = 301

sticky_select-cases_example :
    ((i : ℕ) × (b : BackendRr) × (sticky_select sum64 0 (some (b'k' ∷ [])) backends ≡ ok i)
      × (get_elem? backends i ≡ some b)
      × (is_eligible b ≡ true))
    ⊎ ((sticky_select sum64 0 (some (b'k' ∷ [])) backends ≡ err all_backends_down)
        × ((k : ℕ) (b : BackendRr) → get_elem? backends k ≡ some b → is_eligible b ≡ false))
sticky_select-cases_example = sticky_select-cases sum64 0 (b'k' ∷ []) backends

abbrev env : Env
env = record {
  clock = (λ i. record { init_time = 0; update_time = 0 });
  rand_int = 0;
  rand_uint32 = 0;
  sum64 = sum64;
}

least_conns_chosen : (balance env wlc_smooth (some []) brr).1 ≡ ok 0
unfolding balance ◌+ℤ◌ ◌-ℤ◌ ◌*ℤ◌
least_conns_chosen = refl

balance-AvailAt_example : AvailAt (balance env wlc_smooth (some []) brr).0.backends 0
balance-AvailAt_example = balance-AvailAt env wlc_smooth [] brr 0 refl least_conns_chosen

-- Connections for weight: 5 for 3, then 1 for 1.
abbrev busy : BackendList
busy =
    (record first { backend = record (backend_at (b'a' ∷ []) true) { conn_num = pos 5 } })
    ∷ (record (entry (b'c' ∷ []) true 1) {
      backend = record (backend_at (b'c' ∷ []) true) { conn_num = pos 1 };
    })
    ∷ []

busy-AllCounted : AllCounted busy
busy-AllCounted zero b g = ground arith
busy-AllCounted (suc zero) b g = ground arith
busy-AllCounted (suc (suc k)) b g = ground arith

busy_candidates : least_conns_balance busy ≡ ok (1 ∷ [])
unfolding least_conns_balance least_conns_loop compare_candidate comp_lc_weight ◌*ℤ◌ ◌-ℤ◌ ◌+ℤ◌
busy_candidates = refl

least_conns_balance-LeastAt_example :
    (b : BackendRr) × (get_elem? busy 1 ≡ some b) × (conns b * 3 ≤ 5 * weight b)
least_conns_balance-LeastAt_example =
    least_conns_balance-LeastAt busy (1 ∷ []) 0 1 0 _ busy-AllCounted busy_candidates refl refl refl

-- Back from an outage, to a slow start of ten seconds.
abbrev came_back : BackendRr
came_back = record first {
  backend = record (backend_at (b'a' ∷ []) true) { restarted = true };
  weight_ss = record { final = pos 1000; slow_start_time = pos 0; start_time = 0 };
}

-- Looked at at once, five seconds later, and eleven.
abbrev at_once : Readings
at_once = record { init_time = 77; update_time = 77 }

abbrev five_later : Readings
five_later = record { init_time = 5000000077; update_time = 5000000077 }

abbrev eleven_later : Readings
eleven_later = record { init_time = 11000000077; update_time = 11000000077 }

looks-restarted_example :
    (b' : BackendRr) × (looks (pos 10) (at_once ∷ five_later ∷ eleven_later ∷ []) came_back
      ≡ some b')
    × (b'.in_slow_start ≡ false)
    × (b'.weight ≡ pos 1000)
    × (leb 1000 1000 ≡ true)
unfolding is_over last_ramp
looks-restarted_example =
    looks-restarted came_back at_once (five_later ∷ eleven_later ∷ []) 1000 10 refl refl
      (omega arith) (omega arith) (omega arith) (omega arith, (omega arith, (omega arith, tt)))

half_way :
    (b' : BackendRr) × (looks (pos 10) (at_once ∷ five_later ∷ []) came_back ≡ some b')
    × (b'.weight ≡ pos 500)
unfolding is_over last_ramp
half_way =
    let (b', e, s, w, _) =
      looks-restarted came_back at_once (five_later ∷ []) 1000 10 refl refl (omega arith)
        (omega arith) (omega arith) (omega arith, (omega arith, tt)) in
    (b', e, w)

slow_start_round-restarted_example :
    (b' : BackendRr) × (slow_start_round (pos 10) at_once came_back ≡ some b')
    × (is_eligible b' ≡ false)
slow_start_round-restarted_example =
    slow_start_round-restarted came_back at_once 1000 10 refl refl (omega arith) (omega arith)
      (omega arith) (omega arith)

-- With the product beyond 64 bits, about eleven days after the start, the weight is negative.
overflowed :
    slow_start_weight
      (record { final = pos 10000; slow_start_time = pos 10; start_time = 0 })
      950000000000000
    ≡ some (negsuc 894674406)
unfolding slow_start_weight ◌*ℤ◌
overflowed = refl

-- A time of 2 ^ 55 seconds is a duration of 0, and dividing by it panics.
no_duration :
    slow_start_weight
      (record { final = pos 100; slow_start_time = pos 36028797018963968; start_time = 0 })
      1
    ≡ none
unfolding slow_start_weight ◌*ℤ◌
no_duration = refl

-- Of two old backends one stays; another is new.
abbrev addressed : BackendRr
addressed = record first {
  backend = record (first.backend) { addr_info = b'a' ∷ b':' ∷ b'8' ∷ b'0' ∷ [] };
}

abbrev old_brr : BalanceRr
old_brr = record brr { backends = addressed ∷ entry (b'b' ∷ []) true 9 ∷ [] }

abbrev new_conf : List BackendConf
new_conf =
    record { name = b'a' ∷ []; addr = b'a' ∷ []; port = 80; weight = pos 5 }
    ∷ record { name = b'd' ∷ []; addr = b'd' ∷ []; port = 80; weight = pos 1 }
    ∷ []

abbrev updated_or : BalanceRr → Option (BalanceRr × BackendList) → BalanceRr × BackendList
updated_or b none = (b, [])
updated_or b (some r) = r

abbrev updated : BalanceRr × BackendList
updated = updated_or old_brr (update (λ m. m) new_conf old_brr)

updated_some : update (λ m. m) new_conf old_brr ≡ some (updated.0, updated.1)
unfolding update ◌*ℤ◌ bytes_eq decimal
updated_some = refl

old_brr-Distinct : Distinct old_brr.backends
unfolding bytes_eq
old_brr-Distinct = ((refl, tt), (tt, tt))

update-kept_by_example :
    let m = conf_map_make new_conf in
    let kept = kept_by m old_brr.backends in
    (updated.0.backends ≡ kept ++ map (λ e. restarted_of_conf (b's' ∷ []) e.1) (without kept m))
    × (release_all (dropped_by m old_brr.backends) ≡ some updated.1)
    × (length updated.0.backends ≡ length m)
update-kept_by_example =
    update-kept_by (λ m. m) new_conf old_brr updated.0 updated.1 (λ m. refl) old_brr-Distinct
      updated_some
