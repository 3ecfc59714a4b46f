-- ===== src/Slb/SlowStart/Runs.antt =====
-- bal_rr.go, `checkSlowStart`: a whole slow start, over the looks at a backend that has come back.
use mathlib.Core.Path.{subst}
use bfe.Common.{
  ℕ, ◌-◌, ◌*◌, ◌≤◌, ◌<◌, ◌≡◌, refl, ap, ◌∙◌, Bool, true, false, ◌||◌, not, leb, if◌then◌else◌,
  Option, none, some, List, [], ◌∷◌, arith,
}
use bfe.Common.Int.{ℤ, pos}
use bfe.Slb.Backends.{BackendRr, second, int64_max, update_slow_start, init_slow_start}
use bfe.Backend.{BfeBackend, set_restart}
use bfe.Slb.Balancer.{slow_start_round, Readings}
use bfe.Slb.SlowStart.{
  ramp, leb-ramp, IsDone, After, update_slow_start-After, first_look, After-weight,
}

-- A backend is looked at again and again, with these readings of the clock.
unfoldable pub looks : ℤ → List Readings → BackendRr → Option BackendRr
looks ss_time [] b = some b
looks ss_time (r ∷ rs) b = elim (slow_start_round ss_time r b) [
  | none ↦ none
  | some b' ↦ looks ss_time rs b'
]

-- t seconds after the start are over at one of the looks.
unfoldable pub is_over : ℕ → ℕ → List Readings → Bool
is_over t start [] = false
is_over t start (r ∷ rs) = leb (t * second) (r.update_time - start) || is_over t start rs

-- The last weight of the ramp, from w on.
unfoldable pub last_ramp : ℕ → ℕ → ℕ → ℕ → List Readings → ℕ
last_ramp f t start w [] = w
last_ramp f t start w (r ∷ rs) = last_ramp f t start (ramp f (r.update_time - start) t) rs

-- f times the time since the start fits an int64 at every look.
abbrev pub AllFit : ℕ → ℕ → List Readings → Type 0
AllFit f start [] = Unit
AllFit f start (r ∷ rs) = (f * (r.update_time - start) ≤ int64_max) × AllFit f start rs

round_seen :
    (b : BackendRr) (clock : Readings) (t : ℤ)
    → b.backend.restarted ≡ false
    → slow_start_round t clock b ≡ update_slow_start clock.update_time b
unfolding slow_start_round
round_seen b clock t h =
    ap
      (λ c. update_slow_start clock.update_time (
        if c
        then init_slow_start t clock.init_time (record b { backend = set_restart false b.backend })
        else b))
      h

done_round : (b : BackendRr) (now : ℕ) → b.in_slow_start ≡ false → update_slow_start now b ≡ some b
unfolding update_slow_start
done_round b now h = if_off _ b.in_slow_start h
  where
    if_off :
        {y : Option BackendRr} (x : Option BackendRr) (c : Bool)
        → c ≡ false
        → (if c then x else y) ≡ y
    if_off x c e = rw e refl

then_looks :
    (ss_time : ℤ) (r : Readings) (rs : List Readings) (b b' : BackendRr)
    → slow_start_round ss_time r b ≡ some b'
    → looks ss_time (r ∷ rs) b ≡ looks ss_time rs b'
unfolding looks
then_looks ss_time r rs b b' h = ap (λ o. elim o [ none ↦ none | some x ↦ looks ss_time rs x ]) h

module _ (f t start : ℕ) (ss_time : ℤ) (back : BfeBackend) (positive : 0 < f) (timed : 0 < t)
    (fits : t * second ≤ int64_max) (seen : back.restarted ≡ false) where
  looks-IsDone :
      (rs : List Readings) (b : BackendRr) → IsDone f back b → looks ss_time rs b ≡ some b
  unfolding looks
  looks-IsDone [] b a = refl
  looks-IsDone (r ∷ rs) b a =
      let unseen = ap (λ (x : BfeBackend). x.restarted) a.same ∙ seen in
      then_looks ss_time r rs b b
        (round_seen b r ss_time unseen ∙ done_round b r.update_time a.ended)
      ∙ looks-IsDone rs b a

  looks-After :
      (rs : List Readings) (w : ℕ) (c : Bool) (b : BackendRr)
      → After f t start back w c b
      → AllFit f start rs
      → (b' : BackendRr) × (looks ss_time rs b ≡ some b')
        × After f t start back (last_ramp f t start w rs) (c || is_over t start rs) b'
  unfolding looks After is_over last_ramp
  looks-After rs w true b a fit = (b, looks-IsDone rs b a, a)
  looks-After [] w false b a fit = (b, refl, a)
  looks-After (r ∷ rs) w false b (a, _) fit =
      let e = r.update_time - start in
      let unseen = ap (λ (x : BfeBackend). x.restarted) a.same ∙ seen in
      let (b', step, after) =
        update_slow_start-After b r.update_time f t start back a timed fits fit.0 in
      let (b'', rest, over) = looks-After rs (ramp f e t) (leb f (ramp f e t)) b' after fit.1 in
      (
        b'',
        then_looks ss_time r rs b b' (round_seen b r ss_time unseen ∙ step) ∙ rest,
        subst
            (λ c.
              After f t start back (last_ramp f t start (ramp f e t) rs) (c || is_over t start rs)
                b'')
            (leb-ramp f e t positive timed) over,
      )

After-ended :
    (f t start : ℕ) (back : BfeBackend) (w : ℕ) (c : Bool) (b : BackendRr)
    → After f t start back w c b
    → b.in_slow_start ≡ not c
unfolding After
After-ended f t start back w true b a = a.ended
After-ended f t start back w false b a = a.0.running

neither_true : (x y : Bool) → (x || y) ≡ false → (x ≡ false) × (y ≡ false)
neither_true x y h = ground arith

-- The ramp stays below the final weight until the time is over.
last_ramp_below :
    (f t start : ℕ) (rs : List Readings) (w : ℕ)
    → 0 < f
    → 0 < t
    → leb f w ≡ false
    → is_over t start rs ≡ false
    → leb f (last_ramp f t start w rs) ≡ false
unfolding is_over last_ramp
last_ramp_below f t start [] w p q h o = h
last_ramp_below f t start (r ∷ rs) w p q h o =
    let e = r.update_time - start in
    let (now, rest) = neither_true (leb (t * second) e) (is_over t start rs) o in
    last_ramp_below f t start rs (ramp f e t) p q (leb-ramp f e t p q ∙ now) rest

full_iff_over :
    (f w : ℕ) (over : Bool)
    → (over ≡ false → leb f w ≡ false)
    → leb f (if over then f else w) ≡ over
full_iff_over f w true h = ground arith
full_iff_over f w false h = h refl

-- A backend that has come back, with a positive final weight f and a slow start of t seconds, is
-- looked at any number of times, at times such that t seconds, and f times the nanoseconds since the
-- start of the slow start at each look, fit an int64. No look panics. The slow start is over, and the
-- weight is f, from the first look on at which t seconds have passed; before that it runs, and the
-- weight is that of the ramp at the last look, which is below f.
pub looks-restarted :
    (b : BackendRr) (first : Readings) (later : List Readings) (f t : ℕ)
    → b.backend.restarted ≡ true
    → b.weight_ss.final ≡ pos f
    → 0 < f
    → 0 < t
    → t * second ≤ int64_max
    → AllFit f first.init_time (first ∷ later)
    → let over = is_over t first.init_time (first ∷ later) in
      let w = if over then f else last_ramp f t first.init_time 1 (first ∷ later) in
      (b' : BackendRr) × (looks (pos t) (first ∷ later) b ≡ some b')
      × (b'.in_slow_start ≡ not over)
      × (b'.weight ≡ pos w)
      × (leb f w ≡ over)
unfolding is_over last_ramp set_restart
looks-restarted b first later f t s hf q p d fit =
    let e = first.update_time - first.init_time in
    let back = set_restart false b.backend in
    let (b', step, after) = first_look b first f t s hf p d fit.0 in
    let (b'', rest, over) =
      looks-After f t first.init_time (pos t) back q p d refl later (ramp f e t)
        (leb f (ramp f e t)) b' after fit.1 in
    let ended =
      subst
        (λ c.
          After f t first.init_time back (last_ramp f t first.init_time (ramp f e t) later)
            (c || is_over t first.init_time later) b'')
        (leb-ramp f e t q p) over in
    let below = λ (o : (leb (t * second) e || is_over t first.init_time later) ≡ false).
      let (now, none_later) = neither_true _ _ o in
      last_ramp_below f t first.init_time later (ramp f e t) q p (leb-ramp f e t q p ∙ now)
        none_later in
    (
      b'',
      then_looks (pos t) first later b b' step ∙ rest,
      After-ended f t first.init_time back _ _ b'' ended,
      After-weight f t first.init_time back _ _ b'' ended,
      full_iff_over f (last_ramp f t first.init_time (ramp f e t) later) _ below,
    )
