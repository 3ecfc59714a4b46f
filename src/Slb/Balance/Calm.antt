-- ===== src/Slb/Balance/Calm.antt =====
-- `Balance` of a sub-cluster ends without a panic.
use bfe.Common.{
  ℕ, suc, ◌*◌, ◌≤◌, ◌≡◌, refl, ap, ◌∙◌, inl, inr, Bool, true, false, Option, none, some, List, [],
  ◌∷◌, Bytes, if◌then◌else◌, leb, arith, Bool-cases,
}
use bfe.Common.Int.{ℤ, pos, negsuc, ltb_ℤ, eqb_ℤ}
use bfe.Slb.Backends.{
  BackendRr, WeightSs, second, int64_max, slow_start_duration, slow_start_weight, with_weight,
  update_slow_start, init_slow_start,
}
use bfe.Slb.Balancer.{
  BalanceRr, BackendList, Result, ok, err, all_backends_down, Readings, slow_start_round,
  slow_start_loop, check_slow_start, ensure_sorted_unlocked,
}
use bfe.Backend.{set_restart}
use bfe.Slb.Smooth.{smooth_balance}
use bfe.Slb.Smooth.Choice.{smooth_balance-cases}
use bfe.Slb.LeastConns.{is_member, least_conns_balance, least_conns_smooth_balance}
use bfe.Slb.LeastConns.Choice.{candidates, of_candidates, smooth_among}
use bfe.Slb.Sticky.{sticky_balance}
use bfe.Slb.Sticky.Choice.{sticky_select-cases}
use bfe.Slb.SlowStart.{wrapped_product}
use bfe.Slb.Balance.{
  Algor, Env, balance, choose, looked_at, wrr_simple, wrr_smooth, wrr_sticky, wlc_simple,
  wlc_smooth, other,
}
use bfe.Slb.Balance.Avail.{is_gslb_algor}

-- A position, or the error that all backends are down.
pub data IsCalm : Result ℕ → Type 0 where
  found : (i : ℕ) → IsCalm (ok i)
  all_down : IsCalm (err all_backends_down)

smooth_balance-IsCalm : (member : ℕ → Bool) (bs : BackendList) → IsCalm (smooth_balance member bs).1
smooth_balance-IsCalm member bs = elim (smooth_balance-cases member bs) [
  | inl (i, bs', e) ↦ rw e (found i)
  | inr (bs', e) ↦ rw e all_down
]

among-IsCalm : (bs : BackendList) (js : List ℕ) → IsCalm (smooth_among bs (of_candidates js)).1
among-IsCalm bs [] = all_down
among-IsCalm bs (j ∷ []) = found j
among-IsCalm bs (j ∷ k ∷ js) = smooth_balance-IsCalm (is_member (j ∷ k ∷ js)) bs

least_conns-IsCalm : (bs : BackendList) → IsCalm (least_conns_smooth_balance bs).1
unfolding least_conns_smooth_balance least_conns_balance
least_conns-IsCalm bs = among-IsCalm bs (candidates bs)

sticky_balance-IsCalm :
    (sum64 : Bytes → ℕ) (r : ℕ) (key : Bytes) (brr : BalanceRr)
    → IsCalm (sticky_balance sum64 r (some key) brr).1
unfolding sticky_balance
sticky_balance-IsCalm sum64 r key brr =
    elim (sticky_select-cases sum64 r key (ensure_sorted_unlocked brr).backends) [
      | inl (i, b, e, g, t) ↦ rw e (found i)
      | inr (e, _) ↦ rw e all_down
    ]

choose-IsCalm :
    (env : Env) (algor : Algor) (key : Bytes) (brr : BalanceRr)
    → is_gslb_algor algor ≡ true
    → IsCalm (choose env algor (some key) brr).1
unfolding choose
choose-IsCalm env wrr_smooth key brr g = smooth_balance-IsCalm (λ _. true) brr.backends
choose-IsCalm env wrr_sticky key brr g = sticky_balance-IsCalm env.sum64 env.rand_uint32 key brr
choose-IsCalm env wlc_smooth key brr g = least_conns-IsCalm brr.backends
choose-IsCalm env wrr_simple key brr g = cc
choose-IsCalm env wlc_simple key brr g = cc
choose-IsCalm env other key brr g = cc

-- A time of a slow start in seconds that is not negative and fits an int64 in nanoseconds.
abbrev pub is_time : ℤ → Bool
is_time (pos t) = leb (t * second) int64_max
is_time (negsuc t) = false

duration_positive :
    (t : ℤ)
    → is_time t ≡ true
    → eqb_ℤ t (pos 0) ≡ false
    → eqb_ℤ (slow_start_duration t) (pos 0) ≡ false
duration_positive (pos t) h e =
    let fits : t * second ≤ int64_max = ground arith in
    rw (wrapped_product t second fits) (ground arith)
duration_positive (negsuc t) h e = cc

if_of :
    {A : Type 0} (t : Bool) (x y : Option A)
    → ((a : A) × (x ≡ some a))
    → (t ≡ false → (a : A) × (y ≡ some a))
    → (a : A) × ((if t then x else y) ≡ some a)
if_of true x y p q = p
if_of false x y p q = q refl

else_of :
    {A : Type 0} (t : Bool) (x : Option A) (y : A)
    → t ≡ false
    → (a : A) × ((if t then x else some y) ≡ some a)
else_of t x y h = (y, rw h refl)

slow_start_weight-some :
    (ss : WeightSs) (now : ℕ)
    → is_time ss.slow_start_time ≡ true
    → (w : ℤ) × (slow_start_weight ss now ≡ some w)
unfolding slow_start_weight
slow_start_weight-some ss now h =
    if_of (eqb_ℤ ss.slow_start_time (pos 0)) (some ss.final) _ (ss.final, refl)
      λ e.
        else_of (eqb_ℤ (slow_start_duration ss.slow_start_time) (pos 0)) none _
          (duration_positive ss.slow_start_time h e)

update_slow_start-some :
    (now : ℕ) (b : BackendRr)
    → is_time b.weight_ss.slow_start_time ≡ true
    → (b' : BackendRr) × (update_slow_start now b ≡ some b')
unfolding update_slow_start
update_slow_start-some now b h =
    let (w, e) = slow_start_weight-some b.weight_ss now h in
    if_of b.in_slow_start _ (some b)
      (with_weight b w, ap (λ o. elim o [ none ↦ none | some w' ↦ some (with_weight b w') ]) e)
      (λ off. (b, refl))

init_slow_start-time :
    (t : ℤ) (now : ℕ) (b : BackendRr) → (init_slow_start t now b).weight_ss.slow_start_time ≡ t
unfolding init_slow_start
init_slow_start-time t now b = elim (Bool-cases (eqb_ℤ t (pos 0))) [
  | inl e ↦ rw e refl
  | inr e ↦ rw e refl
]

slow_start_round-some :
    (t : ℤ) (clock : Readings) (b : BackendRr)
    → is_time t ≡ true
    → is_time b.weight_ss.slow_start_time ≡ true
    → (b' : BackendRr) × (slow_start_round t clock b ≡ some b')
unfolding slow_start_round
slow_start_round-some t clock b p h =
    update_slow_start-some clock.update_time (started b.backend.restarted)
      (times b.backend.restarted)
  where
    started : Bool → BackendRr
    started c =
        if c
        then init_slow_start t clock.init_time (record b { backend = set_restart false b.backend })
        else b

    times : (c : Bool) → is_time (started c).weight_ss.slow_start_time ≡ true
    times true =
        ap is_time (
          init_slow_start-time t clock.init_time
            (record b { backend = set_restart false b.backend }))
        ∙ p
    times false = h

-- The slow starts of all backends have such times.
abbrev pub AllTimed : BackendList → Type 0
AllTimed [] = Unit
AllTimed (b ∷ bs) = (is_time b.weight_ss.slow_start_time ≡ true) × AllTimed bs

slow_start_loop-some :
    (t : ℤ) (clock : ℕ → Readings) (i : ℕ) (bs : BackendList)
    → is_time t ≡ true
    → AllTimed bs
    → (bs' : BackendList) × (slow_start_loop t clock i bs ≡ some bs')
unfolding slow_start_loop
slow_start_loop-some t clock i [] p h = ([], refl)
slow_start_loop-some t clock i (b ∷ bs) p h =
    let (b', e) = slow_start_round-some t (clock i) b p h.0 in
    let (bs', f) = slow_start_loop-some t clock (suc i) bs p h.1 in
    (b' ∷ bs', rw (slow_start_loop, e, f) refl)

check_slow_start-some :
    (clock : ℕ → Readings) (brr : BalanceRr)
    → is_time brr.slow_start_time ≡ true
    → AllTimed brr.backends
    → (brr' : BalanceRr) × (check_slow_start clock brr ≡ some brr')
unfolding check_slow_start
check_slow_start-some clock brr p h =
    let (bs, e) = slow_start_loop-some brr.slow_start_time clock 0 brr.backends p h in
    if_of (ltb_ℤ (pos 0) brr.slow_start_time) _ (some brr)
      (
        record brr { backends = bs },
        ap (λ o. elim o [ none ↦ none | some bs' ↦ some (record brr { backends = bs' }) ]) e,
      )
      (λ off. (brr, refl))

looked_at-some :
    (env : Env) (algor : Algor) (brr : BalanceRr)
    → is_time brr.slow_start_time ≡ true
    → AllTimed brr.backends
    → (brr' : BalanceRr) × (looked_at env algor brr ≡ some brr')
looked_at-some env wrr_sticky brr p h = (brr, refl)
looked_at-some env wrr_simple brr p h = check_slow_start-some env.clock brr p h
looked_at-some env wrr_smooth brr p h = check_slow_start-some env.clock brr p h
looked_at-some env wlc_simple brr p h = check_slow_start-some env.clock brr p h
looked_at-some env wlc_smooth brr p h = check_slow_start-some env.clock brr p h
looked_at-some env other brr p h = check_slow_start-some env.clock brr p h

-- For a request with a key the algorithms of `BalanceGslb` return a position or say that all backends
-- are down, if the times of slow start fit.
pub balance-IsCalm :
    (env : Env) (algor : Algor) (key : Bytes) (brr : BalanceRr)
    → is_gslb_algor algor ≡ true
    → is_time brr.slow_start_time ≡ true
    → AllTimed brr.backends
    → IsCalm (balance env algor (some key) brr).1
unfolding balance
balance-IsCalm env algor key brr g p h =
    let (brr', e) = looked_at-some env algor brr p h in
    rw (balance, e) (choose-IsCalm env algor key brr' g)
