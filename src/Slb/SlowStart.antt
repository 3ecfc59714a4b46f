-- ===== src/Slb/SlowStart.antt =====
-- backend_rr.go, the slow start of a backend that has come back.
pub mod Runs
use mathlib.Core.Path.{subst}
use native.Mathlib.Nat.{mod-eq_of_lt, le-div_iff_mul-le, mul-le-mul_left, le_of_mul-le-mul_left}
use bfe.Common.{
  ℕ, ◌+◌, ◌-◌, ◌*◌, ◌/◌, ◌%◌, ◌≤◌, ◌<◌, ◌≡◌, refl, sym, ap, ◌∙◌, inl, inr, Bool, true, false, ◌&&◌,
  ◌||◌, not, ltb, leb, ◌==◌, if◌then◌else◌, arith, Option, none, some, List, [], ◌∷◌, Bool-cases,
}
use bfe.Common.Int.{ℤ, pos, ◌*ℤ◌, ltb_ℤ, leb_ℤ}
use bfe.Slb.Backends.{
  BackendRr, WeightSs, second, int64_mod, int64_max, of_bits, wrap64, quot, slow_start_duration,
  slow_start_weight, update_slow_start, init_slow_start, with_weight,
}
use bfe.Backend.{BfeBackend, set_restart}
use bfe.Slb.Balancer.{slow_start_round, is_eligible, Readings}

-- The weight of the ramp: the final weight f times the part e / (t seconds) of the time.
abbrev pub ramp : ℕ → ℕ → ℕ → ℕ
ramp f e t = f * e / (t * second)

wrap64-small : (n : ℕ) → n ≤ int64_max → wrap64 (pos n) ≡ pos n
unfolding wrap64 of_bits
wrap64-small n h =
    let m : n % int64_mod ≡ n = mod-eq_of_lt (omega arith) in
    let b : ltb int64_max n ≡ false = ground arith in rw (m, b) refl

pub mul-pos : (f e : ℕ) → pos f *ℤ pos e ≡ pos (f * e)
unfolding ◌*ℤ◌
mul-pos f e =
    let none_off : f * 0 + 0 * e ≡ 0 = omega arith in
    let all_on : f * e + 0 * 0 ≡ f * e = omega arith in
    let fits : leb 0 (f * e) ≡ true = ground arith in
    let whole : f * e - 0 ≡ f * e = omega arith in rw (none_off, all_on, fits, whole) refl

pub wrapped_product : (f e : ℕ) → f * e ≤ int64_max → wrap64 (pos f *ℤ pos e) ≡ pos (f * e)
wrapped_product f e h = ap wrap64 (mul-pos f e) ∙ wrap64-small (f * e) h

slow_start_weight-ramp :
    (ss : WeightSs) (now f t : ℕ)
    → ss.final ≡ pos f
    → ss.slow_start_time ≡ pos t
    → 0 < t
    → t * second ≤ int64_max
    → f * (now - ss.start_time) ≤ int64_max
    → slow_start_weight ss now ≡ some (pos (ramp f (now - ss.start_time) t))
unfolding slow_start_weight quot
slow_start_weight-ramp ss now f t hf ht p d h =
    let nz : (t + 0 == 0 + 0) ≡ false = ground arith in
    let dz : (t * second + 0 == 0 + 0) ≡ false = ground arith in
    rw (ht, hf, nz, wrapped_product t second d, wrapped_product f _ h, dz) refl

leb_iff : (a b c d : ℕ) → (a ≤ b → c ≤ d) → (c ≤ d → a ≤ b) → leb a b ≡ leb c d
leb_iff a b c d f g = elim (Bool-cases (leb a b)) [
  | inl e ↦ let h : c ≤ d = f (ground arith) in ground arith
  | inr e ↦ elim (Bool-cases (leb c d)) [
    | inl e' ↦ let h : a ≤ b = g (ground arith) in ground arith
    | inr e' ↦ e ∙ sym e'
  ]
]

-- The ramp reaches its end when the time is over.
pub leb-ramp : (f e t : ℕ) → 0 < f → 0 < t → leb f (ramp f e t) ≡ leb (t * second) e
leb-ramp f e t p q =
    let there = le-div_iff_mul-le {k = t * second} {x = f} {y = f * e} (omega arith) in
    leb_iff _ _ _ _ (λ h. le_of_mul-le-mul_left (there.0 h) p) (λ h. there.1 (mul-le-mul_left f h))

positive_ltb : (n : ℕ) → ltb 0 n ≡ leb 1 n
positive_ltb n = ground arith

ltb-ramp : (f e t : ℕ) → 0 < t → ltb 0 (ramp f e t) ≡ leb (t * second) (f * e)
ltb-ramp f e t q =
    let there = le-div_iff_mul-le {k = t * second} {x = 1} {y = f * e} (omega arith) in
    positive_ltb (ramp f e t)
    ∙ leb_iff 1 (ramp f e t) (t * second) (f * e) (λ h. omega (arith, there.0 h))
        (λ h. there.1 (omega arith))

-- A running slow start of t seconds to the weight f.
pub record Ramps (f t start : ℕ) (back : BfeBackend) (b : BackendRr) : Type 0 where
  pub running : b.in_slow_start ≡ true
  pub final : b.weight_ss.final ≡ pos f
  pub time : b.weight_ss.slow_start_time ≡ pos t
  pub begun : b.weight_ss.start_time ≡ start
  pub same : b.backend ≡ back

-- After its end.
pub record IsDone (f : ℕ) (back : BfeBackend) (b : BackendRr) : Type 0 where
  pub ended : b.in_slow_start ≡ false
  pub full : b.weight ≡ pos f
  pub same : b.backend ≡ back

-- After a look at which the weight of the ramp is w, and reaches f or not.
unfoldable pub After : ℕ → ℕ → ℕ → BfeBackend → ℕ → Bool → BackendRr → Type 0
After f t start back w true b = IsDone f back b
After f t start back w false b = Ramps f t start back b × (b.weight ≡ pos w)

with_weight-After :
    (f t start w : ℕ) (back : BfeBackend) (b : BackendRr)
    → Ramps f t start back b
    → After f t start back w (leb f w) (with_weight b (pos w))
unfolding After
with_weight-After f t start w back b r =
    subst (λ c. After f t start back w (leb f w) (ended_if c)) (sym same) (cases (leb f w))
  where
    ended_if : Bool → BackendRr
    ended_if c =
        if c
        then record b { weight = b.weight_ss.final; in_slow_start = false }
        else record b { weight = pos w }

    cases : (c : Bool) → After f t start back w c (ended_if c)
    cases true = record { ended = refl; full = r.final; same = r.same }
    cases false = (
      record {
        running = r.running;
        final = r.final;
        time = r.time;
        begun = r.begun;
        same = r.same;
      },
      refl,
    )

    sums : leb (f + 0) (w + 0) ≡ leb f w
    sums = ground arith

    same : leb_ℤ b.weight_ss.final (pos w) ≡ leb f w
    same = ap (λ z. leb_ℤ z (pos w)) r.final ∙ sums

pub update_slow_start-After :
    (b : BackendRr) (now f t start : ℕ) (back : BfeBackend)
    → Ramps f t start back b
    → 0 < t
    → t * second ≤ int64_max
    → f * (now - start) ≤ int64_max
    → (b' : BackendRr) × (update_slow_start now b ≡ some b')
      × After f t start back (ramp f (now - start) t) (leb f (ramp f (now - start) t)) b'
unfolding update_slow_start
update_slow_start-After b now f t start back r p d h =
    let e : f * (now - b.weight_ss.start_time) ≤ int64_max = rw r.begun h in
    let w =
      slow_start_weight-ramp b.weight_ss now f t r.final r.time p d e
      ∙ ap (λ n. some (pos (ramp f (now - n) t))) r.begun in
    (
      with_weight b (pos (ramp f (now - start) t)),
      if_running (some b) b.in_slow_start r.running
          ∙ ap (λ o. elim o [ none ↦ none | some w' ↦ some (with_weight b w') ]) w,
      with_weight-After f t start _ back b r,
    )
  where
    if_running :
        {x : Option BackendRr} (y : Option BackendRr) (c : Bool)
        → c ≡ true
        → (if c then x else y) ≡ x
    if_running y c e = rw e refl

-- The first look starts the slow start.
pub started-Ramps :
    (b : BackendRr) (now f t : ℕ)
    → b.weight_ss.final ≡ pos f
    → 0 < t
    → Ramps f t now
        (set_restart false b.backend)
        (init_slow_start (pos t) now (record b { backend = set_restart false b.backend }))
unfolding init_slow_start set_restart
started-Ramps b now f t h p =
    let nz : (t + 0 == 0 + 0) ≡ false = ground arith in
    rw nz (record { running = refl; final = h; time = refl; begun = refl; same = refl })

round_restarted :
    (b : BackendRr) (clock : Readings) (t : ℤ)
    → b.backend.restarted ≡ true
    → slow_start_round t clock b
      ≡ update_slow_start clock.update_time
          (init_slow_start t clock.init_time (record b { backend = set_restart false b.backend }))
unfolding slow_start_round
round_restarted b clock t h =
    ap
      (λ c. update_slow_start clock.update_time (
        if c
        then init_slow_start t clock.init_time (record b { backend = set_restart false b.backend })
        else b))
      h

pub first_look :
    (b : BackendRr) (clock : Readings) (f t : ℕ)
    → b.backend.restarted ≡ true
    → b.weight_ss.final ≡ pos f
    → 0 < t
    → t * second ≤ int64_max
    → f * (clock.update_time - clock.init_time) ≤ int64_max
    → (b' : BackendRr) × (slow_start_round (pos t) clock b ≡ some b')
      × After f t clock.init_time
          (set_restart false b.backend)
          (ramp f (clock.update_time - clock.init_time) t)
          (leb f (ramp f (clock.update_time - clock.init_time) t))
          b'
first_look b clock f t s hf p d h =
    let (b', e, a) =
      update_slow_start-After _ clock.update_time f t clock.init_time _
        (started-Ramps b clock.init_time f t hf p) p d h in
    (b', round_restarted b clock (pos t) s ∙ e, a)

pub After-same :
    (f t start : ℕ) (back : BfeBackend) (w : ℕ) (c : Bool) (b : BackendRr)
    → After f t start back w c b
    → b.backend ≡ back
unfolding After
After-same f t start back w true b a = a.same
After-same f t start back w false b a = a.0.same

pub After-weight :
    (f t start : ℕ) (back : BfeBackend) (w : ℕ) (c : Bool) (b : BackendRr)
    → After f t start back w c b
    → b.weight ≡ pos (if c then f else w)
unfolding After
After-weight f t start back w true b a = a.full
After-weight f t start back w false b a = a.1

eligible_if :
    (b : BackendRr) (a : Bool) (n : ℕ)
    → b.backend.avail ≡ a
    → b.weight ≡ pos n
    → is_eligible b ≡ (a && ltb 0 n)
eligible_if b a n h w = ground (arith, h, w)

positive_if : (f r : ℕ) → 0 < f → ltb 0 (if leb f r then f else r) ≡ ltb 0 r
positive_if f r q = ground arith

-- Of a backend that has come back, with a positive final weight f and a positive slow start of t
-- seconds, where t seconds and f times the nanoseconds d from the start of the slow start to the
-- update in the same look fit an int64: the first look does not panic, and after it the backend
-- takes part exactly if it is available and f times d is at least t seconds.
pub slow_start_round-restarted :
    (b : BackendRr) (clock : Readings) (f t : ℕ)
    → b.backend.restarted ≡ true
    → b.weight_ss.final ≡ pos f
    → 0 < f
    → 0 < t
    → t * second ≤ int64_max
    → f * (clock.update_time - clock.init_time) ≤ int64_max
    → (b' : BackendRr) × (slow_start_round (pos t) clock b ≡ some b')
      × (is_eligible b'
          ≡ (b.backend.avail && leb (t * second) (f * (clock.update_time - clock.init_time))))
unfolding slow_start_round
slow_start_round-restarted b clock f t s hf q p d h =
    let (b', e, a) = first_look b clock f t s hf p d h in
    let r = ramp f (clock.update_time - clock.init_time) t in
    let takes : is_eligible b' ≡ (b.backend.avail && ltb 0 r) =
      eligible_if b' b.backend.avail _
        (ap (λ (x : BfeBackend). x.avail) (After-same f t clock.init_time _ r _ b' a))
        (After-weight f t clock.init_time _ r _ b' a)
      ∙ ap (λ c. b.backend.avail && c) (positive_if f r q) in
    (b', e, takes ∙ ap (λ c. b.backend.avail && c) (ltb-ramp f _ t p))
