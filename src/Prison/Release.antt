-- ===== src/Prison/Release.antt =====
-- bfe_modules/mod_prison/rule.go: a sign that has gone past the threshold, until its release.
use mathlib.Core.Path.{subst}
use bfe.Common.{
  ℕ, ◌+◌, ◌-◌, ◌≡◌, ◌≤◌, ◌<◌, ◌⊎◌, refl, sym, ◌∙◌, Bool, true, false, Option, none, some, List, [],
  ◌∷◌, ltb, arith, inl, inr, some-none, some_injective, map, ap,
}
use bfe.IpDict.Count.{All}
use bfe.Prison.{
  AccessSign, LruCache, AccessCounter, Clock, PrisonRule, PrisonInfo, new_access_counter,
  inc_and_check, record_access, should_deny, record_and_deny, record_and_check,
}
use bfe.Prison.Views.{counts, stays, should_deny-Denies, Denies, should_deny-answer, IsFree}
use bfe.Prison.Counts.{record_access-Records}
use bfe.Prison.Runs.{record_and_check-freed, should_deny-IsFree, true-false}
use bfe.Prison.Fair.{run, record_and_check-limit}

some_le : (m n b : ℕ) → some m ≡ some n → b < m → n ≤ b → ⊥
some_le m n b e h k = let q = some_injective m n e in absurd (omega (arith, q))

inc_and_check-over :
    (c : AccessCounter) (period t now now' : ℕ)
    → c.count ≡ t
    → now ≤ c.start_time + period
    → t < 0x7fffffff
    → ((inc_and_check c period t now now').1 ≡ true)
      × ((inc_and_check c period t now now').2 ≡ c.start_time + period - now)
unfolding inc_and_check
inc_and_check-over c period t now now' e h b =
    let f : ltb (c.start_time + period) now ≡ false = ground arith in rw f (ground arith, refl)

abbrev pub accesses_by : AccessSign → List Clock → List (AccessSign × Clock)
accesses_by s clocks = map (λ clock. (s, clock)) clocks

module _ (access : LruCache AccessCounter) (prison : LruCache ℕ) where
  record IsPrisoned (r : PrisonRule access prison) (s : AccessSign) (f : ℕ) : Type 0 where
    pub until : stays access prison r s ≡ some f
    pub idle : counts access prison r s ≡ none

  should_deny-held :
      (r : PrisonRule access prison) (s : AccessSign) (now f : ℕ)
      → IsPrisoned r s f
      → now < f
      → ((should_deny access prison r s now).2 ≡ true)
        × IsPrisoned (should_deny access prison r s now).0 s f
  should_deny-held r s now f v h = elim (should_deny-answer access prison r s now) [
    | inl (d, free, released) ↦ let k = released f v.until in absurd (omega (arith, h, k))
    | inr (d, f', e, e', k) ↦ (
      d,
      record {
        until = e' ∙ sym e ∙ v.until;
        idle = (should_deny-Denies access prison r s now).counters s ∙ v.idle;
      },
    )
  ]

  should_deny-released :
      (r : PrisonRule access prison) (s : AccessSign) (now f : ℕ)
      → stays access prison r s ≡ some f
      → f ≤ now
      → IsFree access prison r s now (should_deny access prison r s now)
  should_deny-released r s now f e h = elim (should_deny-answer access prison r s now) [
    | inl v ↦ v
    | inr (d, f', g, g', k) ↦ absurd (some_le f' f now (sym g ∙ e) k h)
  ]

  record_and_check-held :
      (r : PrisonRule access prison) (s : AccessSign) (clock : Clock) (f : ℕ)
      → IsPrisoned r s f
      → clock.first_check < f
      → ((record_and_check access prison r s clock).2 ≡ true)
        × IsPrisoned (record_and_check access prison r s clock).0 s f
  unfolding record_and_check
  record_and_check-held r s clock f v h =
      let (d, w) = should_deny-held r s clock.first_check f v h in
      go (should_deny access prison r s clock.first_check) d w
    where
      go :
          (o : PrisonRule access prison × Option PrisonInfo × Bool)
          → o.2 ≡ true
          → IsPrisoned o.0 s f
          → ((record_and_deny access prison s clock o).2 ≡ true)
            × IsPrisoned (record_and_deny access prison s clock o).0 s f
      go (r1, info, true) d w = (d, w)
      go (r1, info, false) d w = absurd (true-false (sym d))

  -- The end of the prison of a sign whose counter goes past the threshold.
  unfoldable pub free_time : PrisonRule access prison → AccessCounter → Clock → ℕ
  free_time r c clock =
      r.stay_period_ns + (c.start_time + r.check_period_ns - clock.counted) + clock.imprisoned

  -- One more access, within the period, puts the sign into prison.
  pub record IsFull (r : PrisonRule access prison) (s : AccessSign) (c : AccessCounter)
      (clock : Clock) : Type 0 where
    pub counter : counts access prison r s ≡ some c
    pub full : c.count ≡ r.threshold
    pub within : clock.counted ≤ c.start_time + r.check_period_ns
    pub limit : r.threshold < 0x7fffffff

  record_access-IsPrisoned :
      (r : PrisonRule access prison) (s : AccessSign) (c : AccessCounter) (clock : Clock)
      → IsFull r s c clock
      → IsPrisoned (record_access access prison r s clock) s (free_time r c clock)
  unfolding free_time
  record_access-IsPrisoned r s c clock v =
      let w = record_access-Records access prison r s clock in
      let same : w.counter ≡ c = found w.counter w.from in
      let (block, rest) =
        inc_and_check-over w.counter r.check_period_ns r.threshold clock.counted clock.restarted
          (ap (λ x. x.count) same ∙ v.full)
          (subst (λ x. clock.counted ≤ x.start_time + r.check_period_ns) (sym same) v.within)
          v.limit in
      elim (w.settled) [
        | inl (p, e, g) ↦ absurd (true-false (sym block ∙ p))
        | inr (p, e, g) ↦ record {
          until =
              g
              ∙ ap (λ x. some (r.stay_period_ns + x + clock.imprisoned))
                  (rest ∙ ap (λ x. x.start_time + r.check_period_ns - clock.counted) same);
          idle = e;
        }
      ]
    where
      found :
          (c' : AccessCounter)
          → (counts access prison r s ≡ some c')
            ⊎ ((counts access prison r s ≡ none) × (c' ≡ new_access_counter clock.created))
          → c' ≡ c
      found c' (inl e) = some_injective c' c (sym e ∙ v.counter)
      found c' (inr (e, f)) = absurd (some-none c (sym v.counter ∙ e))

  record_and_check-enters :
      (r : PrisonRule access prison) (s : AccessSign) (c : AccessCounter) (clock : Clock)
      → stays access prison r s ≡ none
      → IsFull r s c clock
      → clock.last_check < free_time r c clock
      → ((record_and_check access prison r s clock).2 ≡ true)
        × IsPrisoned (record_and_check access prison r s clock).0 s (free_time r c clock)
  unfolding record_and_check free_time
  record_and_check-enters r s c clock e v h =
      go (should_deny access prison r s clock.first_check)
        (should_deny-IsFree access prison r s clock.first_check e)
        (should_deny-Denies access prison r s clock.first_check)
    where
      go :
          (o : PrisonRule access prison × Option PrisonInfo × Bool)
          → IsFree access prison r s clock.first_check o
          → Denies access prison r s o.0
          → ((record_and_deny access prison s clock o).2 ≡ true)
            × IsPrisoned (record_and_deny access prison s clock o).0 s (free_time r c clock)
      go (r1, info, true) (d, free, _) w = absurd (true-false d)
      go (r1, info, false) (d, free, _) w =
          let q = w.keeps.period in
          let t = w.keeps.limit in
          let same : free_time r1 c clock ≡ free_time r c clock = rw (q, w.keeps.stay) refl in
          should_deny-held (record_access access prison r1 s clock) s clock.last_check
            (free_time r c clock)
            (subst (λ x. IsPrisoned (record_access access prison r1 s clock) s x) same
              (record_access-IsPrisoned r1 s c clock (record {
                counter = w.counters s ∙ v.counter;
                full = v.full ∙ sym t;
                within = rw q v.within;
                limit = rw t v.limit;
              })))
            h

  -- One access of a sign after another, each of which is denied.
  unfoldable pub AllDenied : PrisonRule access prison → AccessSign → List Clock → Type 0
  AllDenied r s [] = Unit
  AllDenied r s (clock ∷ clocks) =
      ((record_and_check access prison r s clock).2 ≡ true)
      × AllDenied (record_and_check access prison r s clock).0 s clocks

  run-IsPrisoned :
      (r : PrisonRule access prison) (s : AccessSign) (clocks : List Clock) (f t : ℕ)
      → IsPrisoned r s f
      → r.threshold ≡ t
      → All (λ clock. clock.first_check < f) clocks
      → AllDenied r s clocks
        × IsPrisoned (run access prison r (accesses_by s clocks)) s f
        × ((run access prison r (accesses_by s clocks)).threshold ≡ t)
  unfolding AllDenied run
  run-IsPrisoned r s [] f t v q a = (tt, v, q)
  run-IsPrisoned r s (clock ∷ clocks) f t v q a =
      let (d, w) = record_and_check-held r s clock f v a.0 in
      let p = record_and_check-limit access prison r s clock ∙ q in
      let (ds, v', q') =
        run-IsPrisoned (record_and_check access prison r s clock).0 s clocks f t w p a.1 in
      ((d, ds), v', q')

  -- A sign whose count has reached the threshold is denied at its next access within the check period,
  -- and then at every access of its own before the end of the prison, which is the stay period, and
  -- what is left of the check period, after the moment at which it is put into prison. The first access
  -- at or after the end is let pass again, if the threshold is not 0. Here no other sign comes in
  -- between, the access that goes past the threshold is over before that end, and the threshold is
  -- below 2^31 - 1.
  pub denied_until_free_time :
      (r : PrisonRule access prison) (s : AccessSign) (c : AccessCounter) (clock : Clock)
      → stays access prison r s ≡ none
      → IsFull r s c clock
      → clock.last_check < free_time r c clock
      → 0 < r.threshold
      → (clocks : List Clock) → All (λ k. k.first_check < free_time r c clock) clocks
      → (last : Clock) → free_time r c clock ≤ last.first_check
      → AllDenied r s (clock ∷ clocks)
        × ((record_and_check access prison
              (run access prison r (accesses_by s (clock ∷ clocks)))
              s
              last).2
            ≡ false)
  unfolding AllDenied run
  denied_until_free_time r s c clock e v h z clocks a last k =
      let (d, w) = record_and_check-enters r s c clock e v h in
      let r' = (record_and_check access prison r s clock).0 in
      let (ds, u, q) =
        run-IsPrisoned r' s clocks (free_time r c clock) r.threshold w
          (record_and_check-limit access prison r s clock) a in
      let r'' = run access prison r' (accesses_by s clocks) in
      let limit = v.limit in
      let (pass, _) =
        record_and_check-freed access prison r'' s last 0
          (should_deny-released r'' s last.first_check (free_time r c clock) u.until k)
          (λ c' g. absurd (some-none c' (sym g ∙ u.idle))) (omega (arith, q, z))
          (omega (arith, q, limit)) in
      ((d, ds), pass)
