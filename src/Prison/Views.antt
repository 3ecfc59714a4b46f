-- ===== src/Prison/Views.antt =====
-- bfe_modules/mod_prison/rule.go: what the two dictionaries of a rule hold for a sign after each
-- step.
use mathlib.Core.Path.{}
use bfe.Common.{
  ℕ, ◌≡◌, ◌≤◌, ◌<◌, ◌⊎◌, inl, inr, refl, sym, ◌∙◌, Bool, true, false, Option, none, some, ltb, ◌==◌,
  arith, Bool-cases, some-none,
}
use bfe.Prison.{AccessSign, LruCache, AccessCounter, PrisonRule, PrisonInfo, deny_by, should_deny}

some_le : (m n b : ℕ) → some m ≡ some n → m ≤ b → n ≤ b
some_le m n b e h = ground arith

module _ (access : LruCache AccessCounter) (prison : LruCache ℕ) where
  -- The counter of a sign.
  abbrev pub counts : PrisonRule access prison → AccessSign → Option AccessCounter
  counts r k = (access.get r.access_dict k).0

  -- The time until which a sign stays in prison.
  abbrev pub stays : PrisonRule access prison → AccessSign → Option ℕ
  stays r k = (prison.get r.prison_dict k).0

  -- The settings of a rule are kept.
  pub record Keeps (r r' : PrisonRule access prison) : Type 0 where
    pub period : r'.check_period_ns ≡ r.check_period_ns
    pub stay : r'.stay_period_ns ≡ r.stay_period_ns
    pub limit : r'.threshold ≡ r.threshold

  -- shouldDeny keeps the settings and the counters, and the prison of other signs.
  pub record Denies (r : PrisonRule access prison) (j : AccessSign) (r' : PrisonRule access prison)
      : Type 0 where
    pub keeps : Keeps r r'
    pub counters : (k : AccessSign) → counts r' k ≡ counts r k
    pub others : (k : AccessSign) → (j == k) ≡ false → stays r' k ≡ stays r k

  deny_by-Denies :
      (r : PrisonRule access prison) (j : AccessSign) (now : ℕ) (g : Option ℕ × prison.Cache)
      → ((k : AccessSign) → (prison.get g.1 k).0 ≡ stays r k)
      → Denies r j (deny_by access prison r j now g).0
  deny_by-Denies r j now (none, dict) same = record {
    keeps = record { period = refl; stay = refl; limit = refl };
    counters = λ k. refl;
    others = λ k e. same k;
  }
  deny_by-Denies r j now (some f, dict) same = elim (Bool-cases (ltb now f)) [
    | inl e ↦ rw e (record {
      keeps = record { period = refl; stay = refl; limit = refl };
      counters = λ k. refl;
      others = λ k e. same k;
    })
    | inr e ↦ rw e (record {
      keeps = record { period = refl; stay = refl; limit = refl };
      counters = λ k. refl;
      others = λ k e. prison.get-del_other dict j k e ∙ same k;
    })
  ]

  pub should_deny-Denies :
      (r : PrisonRule access prison) (j : AccessSign) (now : ℕ)
      → Denies r j (should_deny access prison r j now).0
  unfolding should_deny
  should_deny-Denies r j now =
      deny_by-Denies r j now (prison.get r.prison_dict j) (λ k. prison.get-get r.prison_dict j k)

  -- A sign that is let pass is not in prison any more.
  abbrev pub IsFree :
      PrisonRule access prison
      → AccessSign
      → ℕ
      → PrisonRule access prison × Option PrisonInfo × Bool
      → Type 0
  IsFree r j now (r', info, deny) =
      (deny ≡ false) × (stays r' j ≡ none) × ((f : ℕ) → stays r j ≡ some f → f ≤ now)

  abbrev pub IsHeld :
      PrisonRule access prison
      → AccessSign
      → ℕ
      → PrisonRule access prison × Option PrisonInfo × Bool
      → Type 0
  IsHeld r j now (r', info, deny) =
      (deny ≡ true) × (f : ℕ) × (stays r j ≡ some f) × (stays r' j ≡ some f) × (now < f)

  deny_by-answer :
      (r : PrisonRule access prison) (j : AccessSign) (now : ℕ) (g : Option ℕ × prison.Cache)
      → ((k : AccessSign) → (prison.get g.1 k).0 ≡ stays r k)
      → g.0 ≡ stays r j
      → IsFree r j now (deny_by access prison r j now g)
        ⊎ IsHeld r j now (deny_by access prison r j now g)
  deny_by-answer r j now (none, dict) same own =
      inl (refl, same j ∙ sym own, λ f e. absurd (some-none f (sym e ∙ sym own)))
  deny_by-answer r j now (some f, dict) same own = elim (Bool-cases (ltb now f)) [
    | inl e ↦ inr (rw e (refl, f, sym own, same j ∙ sym own, ground arith))
    | inr e ↦
        inl
          (rw e (refl, prison.get-del dict j, λ f' e'. some_le f f' now (own ∙ e') (ground arith)))
  ]

  -- shouldDeny denies a sign exactly while it is in prison, and frees it after that.
  pub should_deny-answer :
      (r : PrisonRule access prison) (j : AccessSign) (now : ℕ)
      → IsFree r j now (should_deny access prison r j now)
        ⊎ IsHeld r j now (should_deny access prison r j now)
  unfolding should_deny
  should_deny-answer r j now =
      deny_by-answer r j now (prison.get r.prison_dict j) (λ k. prison.get-get r.prison_dict j k)
        refl
