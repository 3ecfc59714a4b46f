-- ===== src/Prison/Runs.antt =====
-- bfe_modules/mod_prison/rule.go: runs of recordAndCheck, with the accesses of any signs in any order.
use mathlib.Core.Path.{subst}
use bfe.Common.{
  ℕ, ◌+◌, ◌≡◌, ◌≢◌, ◌≤◌, ◌<◌, ◌⊎◌, inl, inr, sym, ◌∙◌, Bool, true, false, Option, none, some, ltb,
  ◌==◌, arith, Bool-cases, some_injective, some-none,
}
use bfe.Prison.{
  AccessSign, LruCache, AccessCounter, Clock, PrisonRule, PrisonInfo, new_access_counter, reset,
  inc_and_check, record_access, should_deny, record_and_deny, record_and_check,
}
use bfe.Prison.Views.{counts, stays, Denies, should_deny-Denies, should_deny-answer, IsFree}
use bfe.Prison.Counts.{IsLess, Records, record_access-Records}

IsLess-trans : {V : Type 0} (a b c : Option V) → IsLess b a → IsLess c b → IsLess c a
IsLess-trans a b c (inl e) (inl f) = inl (f ∙ e)
IsLess-trans a b c (inr e) (inl f) = inr (f ∙ e)
IsLess-trans a b c h (inr f) = inr f

pub true-false : true ≢ false
true-false e = cc

-- The threshold of an int32.
abbrev pub IsThreshold : ℕ → Type 0
IsThreshold t = t < 0x80000000

inc_and_check-few :
    (c : AccessCounter) (period t now now' n : ℕ)
    → c.count ≤ n
    → n < t
    → IsThreshold t
    → ((inc_and_check c period t now now').1 ≡ false)
      × ((inc_and_check c period t now now').0.count ≤ n + 1)
unfolding inc_and_check reset
inc_and_check-few c period t now now' n h k b =
    elim (Bool-cases (ltb (c.start_time + period) now)) [
      | inl e ↦ rw e (ground arith, ground arith)
      | inr e ↦ rw e (ground arith, ground arith)
    ]

module _ (access : LruCache AccessCounter) (prison : LruCache ℕ) where
  -- The sign is not in prison, and it has a count of n at most.
  pub record IsFew (r : PrisonRule access prison) (s : AccessSign) (n : ℕ) : Type 0 where
    pub free : stays access prison r s ≡ none
    pub few : (c : AccessCounter) → counts access prison r s ≡ some c → c.count ≤ n

  -- What the dictionaries hold for a sign stays or falls out.
  pub record IsSub (r : PrisonRule access prison) (s : AccessSign) (r' : PrisonRule access prison)
      : Type 0 where
    pub counters : IsLess (counts access prison r' s) (counts access prison r s)
    pub prisons : IsLess (stays access prison r' s) (stays access prison r s)

  IsSub-trans :
      (r r' r'' : PrisonRule access prison) (s : AccessSign)
      → IsSub r s r'
      → IsSub r' s r''
      → IsSub r s r''
  IsSub-trans r r' r'' s a b = record {
    counters = IsLess-trans _ _ _ a.counters b.counters;
    prisons = IsLess-trans _ _ _ a.prisons b.prisons;
  }

  Denies→IsSub :
      (r r' : PrisonRule access prison) (j s : AccessSign)
      → (j == s) ≡ false
      → Denies access prison r j r'
      → IsSub r s r'
  Denies→IsSub r r' j s e d = record { counters = inl (d.counters s); prisons = inl (d.others s e) }

  -- The other signs, in a recordAndCheck.
  pub record_and_check-IsSub :
      (r : PrisonRule access prison) (j s : AccessSign) (clock : Clock)
      → (j == s) ≡ false
      → IsSub r s (record_and_check access prison r j clock).0
  unfolding record_and_check
  record_and_check-IsSub r j s clock e =
      go (should_deny access prison r j clock.first_check)
        (Denies→IsSub r _ j s e (should_deny-Denies access prison r j clock.first_check))
    where
      go :
          (o : PrisonRule access prison × Option PrisonInfo × Bool)
          → IsSub r s o.0
          → IsSub r s (record_and_deny access prison j clock o).0
      go (r1, info, true) b = b
      go (r1, info, false) b =
          let v = record_access-Records access prison r1 j clock in
          let r2 = record_access access prison r1 j clock in
          IsSub-trans r r1 _ s b (
            IsSub-trans r1 r2 _ s
              (record { counters = v.other_counts s e; prisons = v.other_stays s e })
              (Denies→IsSub r2 _ j s e (should_deny-Denies access prison r2 j clock.last_check)))

  pub IsFew-IsSub :
      (r r' : PrisonRule access prison) (s : AccessSign) (n : ℕ)
      → IsSub r s r'
      → IsFew r s n
      → IsFew r' s n
  IsFew-IsSub r r' s n b v = record {
    free = elim (b.prisons) [ inl e ↦ e ∙ v.free | inr e ↦ e ];
    few = λ c e. elim (b.counters) [ inl f ↦ v.few c (sym f ∙ e) | inr f ↦ cc ];
  }

  counter_few :
      (r : PrisonRule access prison) (s : AccessSign) (n now : ℕ) (c : AccessCounter)
      → IsFew r s n
      → (counts access prison r s ≡ some c)
        ⊎ ((counts access prison r s ≡ none) × (c ≡ new_access_counter now))
      → c.count ≤ n
  unfolding new_access_counter
  counter_few r s n now c v (inl e) = v.few c e
  counter_few r s n now c v (inr (e, f)) = rw f (omega arith)

  record_access-IsFew :
      (r r' : PrisonRule access prison) (s : AccessSign) (clock : Clock) (n : ℕ)
      → IsFew r s n
      → n < r.threshold
      → IsThreshold r.threshold
      → Records access prison r s clock r'
      → IsFew r' s (n + 1)
  record_access-IsFew r r' s clock n v h b w =
      let (pass, few) =
        inc_and_check-few w.counter r.check_period_ns r.threshold clock.counted clock.restarted n
          (counter_few r s n clock.created w.counter v w.from) h b in
      elim (w.settled) [
        | inl (p, e, f) ↦ record {
          free = f ∙ v.free;
          few = λ c g. subst (λ x. x.count ≤ n + 1) (some_injective _ c (sym e ∙ g)) few;
        }
        | inr (p, e, f) ↦ absurd (true-false (sym p ∙ pass))
      ]

  -- Where a sign that is not in prison is let pass, and nothing else changes for it.
  pub should_deny-IsFree :
      (r : PrisonRule access prison) (s : AccessSign) (now : ℕ)
      → stays access prison r s ≡ none
      → IsFree access prison r s now (should_deny access prison r s now)
  should_deny-IsFree r s now e = elim (should_deny-answer access prison r s now) [
    | inl v ↦ v
    | inr (d, f, g, g', k) ↦ absurd (some-none f (sym g ∙ e))
  ]

  -- A recordAndCheck of a sign with few accesses that the first shouldDeny lets pass.
  pub record_and_check-freed :
      (r : PrisonRule access prison) (s : AccessSign) (clock : Clock) (n : ℕ)
      → IsFree access prison r s clock.first_check (should_deny access prison r s clock.first_check)
      → ((c : AccessCounter) → counts access prison r s ≡ some c → c.count ≤ n)
      → n < r.threshold
      → IsThreshold r.threshold
      → ((record_and_check access prison r s clock).2 ≡ false)
        × IsFew (record_and_check access prison r s clock).0 s (n + 1)
  unfolding record_and_check
  record_and_check-freed r s clock n v few h b =
      go (should_deny access prison r s clock.first_check) v
        (should_deny-Denies access prison r s clock.first_check)
    where
      again :
          (r' : PrisonRule access prison)
          → IsFew r' s (n + 1)
          → ((should_deny access prison r' s clock.last_check).2 ≡ false)
            × IsFew (should_deny access prison r' s clock.last_check).0 s (n + 1)
      again r' w =
          let (d, free, _) = should_deny-IsFree r' s clock.last_check w.free in
          let same = should_deny-Denies access prison r' s clock.last_check in
          (d, record { free = free; few = λ c e. w.few c (sym (same.counters s) ∙ e) })

      go :
          (o : PrisonRule access prison × Option PrisonInfo × Bool)
          → IsFree access prison r s clock.first_check o
          → Denies access prison r s o.0
          → ((record_and_deny access prison s clock o).2 ≡ false)
            × IsFew (record_and_deny access prison s clock o).0 s (n + 1)
      go (r1, info, true) (d, free, _) w = absurd (true-false d)
      go (r1, info, false) (d, free, _) w =
          let t = w.keeps.limit in
          again (record_access access prison r1 s clock) (
            record_access-IsFew r1 _ s clock n
              (record { free = free; few = λ c e. few c (sym (w.counters s) ∙ e) })
              (omega (arith, t)) (omega (arith, t))
              (record_access-Records access prison r1 s clock))

  pub record_and_check-IsFew :
      (r : PrisonRule access prison) (s : AccessSign) (clock : Clock) (n : ℕ)
      → IsFew r s n
      → n < r.threshold
      → IsThreshold r.threshold
      → ((record_and_check access prison r s clock).2 ≡ false)
        × IsFew (record_and_check access prison r s clock).0 s (n + 1)
  record_and_check-IsFew r s clock n v h b =
      record_and_check-freed r s clock n (should_deny-IsFree r s clock.first_check v.free) v.few h b
