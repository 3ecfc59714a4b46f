-- ===== src/Prison/Fair.antt =====
-- bfe_modules/mod_prison/rule.go: a sign that keeps below the threshold, among any other accesses.
use mathlib.Core.Path.{subst}
use bfe.Common.{
  ℕ, suc, ◌+◌, ◌≡◌, ◌≤◌, ◌<◌, refl, sym, ◌∙◌, Bool, true, false, Option, none, List, [], ◌∷◌,
  if◌then◌else◌, ◌==◌, arith, Bool-cases, inl, inr, some-none,
}
use bfe.Prison.{
  AccessSign, LruCache, AccessCounter, Clock, PrisonRule, PrisonInfo, init_dict, record_access,
  should_deny, record_and_deny, record_and_check,
}
use bfe.Prison.Views.{should_deny-Denies}
use bfe.Prison.Counts.{record_access-Records}
use bfe.Prison.Runs.{
  IsFew, IsThreshold, IsFew-IsSub, record_and_check-IsSub, record_and_check-IsFew,
}

-- The number of the accesses of a sign.
unfoldable pub accesses_of : AccessSign → List (AccessSign × Clock) → ℕ
accesses_of s [] = 0
accesses_of s ((j, clock) ∷ accesses) =
    let n = accesses_of s accesses in if j == s then suc n else n

module _ (access : LruCache AccessCounter) (prison : LruCache ℕ) where
  -- The accesses that match a rule, one after another.
  unfoldable pub run :
      PrisonRule access prison → List (AccessSign × Clock) → PrisonRule access prison
  unfolding record_and_check
  run r [] = r
  run r ((j, clock) ∷ accesses) = run (record_and_check access prison r j clock).0 accesses

  pub record_and_check-limit :
      (r : PrisonRule access prison) (j : AccessSign) (clock : Clock)
      → (record_and_check access prison r j clock).0.threshold ≡ r.threshold
  unfolding record_and_check
  record_and_check-limit r j clock =
      go (should_deny access prison r j clock.first_check)
        (should_deny-Denies access prison r j clock.first_check).keeps.limit
    where
      go :
          (o : PrisonRule access prison × Option PrisonInfo × Bool)
          → o.0.threshold ≡ r.threshold
          → (record_and_deny access prison j clock o).0.threshold ≡ r.threshold
      go (r1, info, true) e = e
      go (r1, info, false) e =
          let r2 = record_access access prison r1 j clock in
          (should_deny-Denies access prison r2 j clock.last_check).keeps.limit
          ∙ (record_access-Records access prison r1 j clock).keeps.limit
          ∙ e

  IsFew-weaken :
      (r : PrisonRule access prison) (s : AccessSign) (m n : ℕ)
      → m ≤ n
      → IsFew access prison r s m
      → IsFew access prison r s n
  IsFew-weaken r s m n h v = record { free = v.free; few = λ c e. let k = v.few c e in omega arith }

  run-IsFew :
      (r : PrisonRule access prison) (accesses : List (AccessSign × Clock)) (s : AccessSign)
      (n t : ℕ)
      → IsFew access prison r s n
      → r.threshold ≡ t
      → IsThreshold t
      → n + accesses_of s accesses < t
      → IsFew access prison (run r accesses) s (n + accesses_of s accesses)
        × ((run r accesses).threshold ≡ t)
  unfolding run accesses_of
  run-IsFew r [] s n t v q b h = (IsFew-weaken r s n (n + 0) (omega arith) v, q)
  run-IsFew r ((j, clock) ∷ accesses) s n t v q b h =
      let r' = (record_and_check access prison r j clock).0 in
      let q' = record_and_check-limit r j clock ∙ q in
      elim (Bool-cases (j == s)) [
        | inl e ↦
            let h' = rw e at h in
            let j_s : j ≡ s = ground (arith, e) in
            let (deny, v') =
              record_and_check-IsFew access prison r s clock n v (omega (arith, q, h'))
                (omega (arith, q, b)) in
            let (w, p) =
              run-IsFew r' accesses s (n + 1) t
                (subst
                  (λ x. IsFew access prison (record_and_check access prison r x clock).0 s (n + 1))
                  (sym j_s) v')
                q' b (omega (arith, h')) in
            rw e (IsFew-weaken (run r' accesses) s _ _ (omega arith) w, p)
        | inr e ↦ rw e (
            run-IsFew r' accesses s n t
              (IsFew-IsSub access prison r r' s n
                (record_and_check-IsSub access prison r j s clock e) v)
              q' b (rw e at h))
      ]

  init_dict-IsFew :
      (r : PrisonRule access prison) (s : AccessSign)
      → IsFew access prison (init_dict access prison r none) s 0
  unfolding init_dict
  init_dict-IsFew r s = record {
    free = prison.get-new r.prison_dict_size s;
    few = λ c e. absurd (some-none c (sym e ∙ access.get-new r.access_dict_size s));
  }

  init_dict-limit :
      (r : PrisonRule access prison) → (init_dict access prison r none).threshold ≡ r.threshold
  unfolding init_dict
  init_dict-limit r = refl

  -- For a rule with new dictionaries, and for caches of any size, an access is let pass if the sign
  -- has had fewer accesses before it than the threshold, whatever other signs do in between and
  -- whatever the clock reads.
  pub run-passes :
      (r : PrisonRule access prison) (accesses : List (AccessSign × Clock)) (s : AccessSign)
      (clock : Clock)
      → IsThreshold r.threshold
      → accesses_of s accesses < r.threshold
      → (record_and_check access prison (run (init_dict access prison r none) accesses) s clock).2
        ≡ false
  run-passes r accesses s clock b h =
      let (v, q) =
        run-IsFew (init_dict access prison r none) accesses s 0 r.threshold (init_dict-IsFew r s)
          (init_dict-limit r) b (omega (arith, h)) in
      let (deny, w) =
        record_and_check-IsFew access prison (run (init_dict access prison r none) accesses) s clock
          (accesses_of s accesses) (IsFew-weaken _ s _ _ (omega arith) v) (omega (arith, q, h))
          (omega (arith, q, b)) in
      deny
