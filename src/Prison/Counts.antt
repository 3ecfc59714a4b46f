-- ===== src/Prison/Counts.antt =====
-- bfe_modules/mod_prison/rule.go: what recordAccess does to the two dictionaries of a rule.
use bfe.Common.{
  ℕ, ◌+◌, ◌≡◌, ◌⊎◌, inl, inr, refl, sym, ◌∙◌, Bool, true, false, Option, none, some, ◌==◌,
}
use bfe.Prison.{
  AccessSign, LruCache, AccessCounter, Clock, PrisonRule, new_access_counter, inc_and_check,
  counter_of, settle, record_access,
}
use bfe.Prison.Views.{counts, stays, Keeps}

-- An entry stays or falls out.
abbrev pub IsLess : {V : Type 0} → Option V → Option V → Type 0
IsLess after before = (after ≡ before) ⊎ (after ≡ none)

module _ (access : LruCache AccessCounter) (prison : LruCache ℕ) where
  -- A counter has been found in the dictionary, or made and put into it.
  record IsCounter (r : PrisonRule access prison) (j : AccessSign) (now : ℕ) (f : AccessCounter)
      (dict : access.Cache) : Type 0 where
    pub own : (access.get dict j).0 ≡ some f
    pub others :
        (k : AccessSign)
        → (j == k) ≡ false
        → IsLess (access.get dict k).0 (counts access prison r k)
    pub from :
        (counts access prison r j ≡ some f)
        ⊎ ((counts access prison r j ≡ none) × (f ≡ new_access_counter now))

  counter_of-IsCounter :
      (r : PrisonRule access prison) (j : AccessSign) (now : ℕ)
      (g : Option AccessCounter × access.Cache)
      → ((k : AccessSign) → (access.get g.1 k).0 ≡ counts access prison r k)
      → g.0 ≡ counts access prison r j
      → IsCounter r j now (counter_of access prison g j now).0 (counter_of access prison g j now).1
  counter_of-IsCounter r j now (some f, dict) same own = record {
    own = same j ∙ sym own;
    others = λ k e. inl (same k);
    from = inl (sym own);
  }
  counter_of-IsCounter r j now (none, dict) same own = record {
    own = access.get-add dict j (new_access_counter now);
    others = λ k e. elim (access.get-add_other dict j k (new_access_counter now) e) [
      | inl x ↦ inl (x ∙ same k)
      | inr x ↦ inr x
    ];
    from = inr (sym own, refl);
  }

  -- What IncAndCheck makes of a counter under a rule.
  abbrev pub counted : PrisonRule access prison → Clock → AccessCounter → AccessCounter × Bool × ℕ
  counted r clock f = inc_and_check f r.check_period_ns r.threshold clock.counted clock.restarted

  -- The counter is kept, or the sign is in prison.
  abbrev pub IsSettled :
      PrisonRule access prison
      → AccessSign
      → Clock
      → AccessCounter × Bool × ℕ
      → PrisonRule access prison
      → Type 0
  IsSettled r j clock (f, block, rest) r' =
      ((block ≡ false)
        × (counts access prison r' j ≡ some f)
        × (stays access prison r' j ≡ stays access prison r j))
      ⊎ ((block ≡ true)
          × (counts access prison r' j ≡ none)
          × (stays access prison r' j ≡ some (r.stay_period_ns + rest + clock.imprisoned)))

  pub record Records (r : PrisonRule access prison) (j : AccessSign) (clock : Clock)
      (r' : PrisonRule access prison) : Type 0 where
    pub keeps : Keeps access prison r r'
    pub other_counts :
        (k : AccessSign)
        → (j == k) ≡ false
        → IsLess (counts access prison r' k) (counts access prison r k)
    pub other_stays :
        (k : AccessSign)
        → (j == k) ≡ false
        → IsLess (stays access prison r' k) (stays access prison r k)
    pub counter : AccessCounter
    pub from :
        (counts access prison r j ≡ some counter)
        ⊎ ((counts access prison r j ≡ none) × (counter ≡ new_access_counter clock.created))
    pub settled : IsSettled r j clock (counted r clock counter) r'

  settle-Records :
      (r : PrisonRule access prison) (j : AccessSign) (clock : Clock) (f : AccessCounter)
      (dict : access.Cache) (o : AccessCounter × Bool × ℕ)
      → IsCounter r j clock.created f dict
      → o ≡ counted r clock f
      → Records r j clock (settle access prison r dict j clock.imprisoned o)
  settle-Records r j clock f dict (f', true, rest) v e = record {
    keeps = record { period = refl; stay = refl; limit = refl };
    other_counts = λ k n.
        let g = access.get-del_other dict j k n in
        elim (v.others k n) [ inl x ↦ inl (g ∙ x) | inr x ↦ inr (g ∙ x) ];
    other_stays = λ k n. prison.get-add_other r.prison_dict j k _ n;
    counter = f;
    from = v.from;
    settled = rw (← e) (inr (refl, access.get-del dict j, prison.get-add r.prison_dict j _));
  }
  settle-Records r j clock f dict (f', false, rest) v e = record {
    keeps = record { period = refl; stay = refl; limit = refl };
    other_counts = λ k n.
        let g = access.get-store_other dict j k f' n in
        elim (v.others k n) [ inl x ↦ inl (g ∙ x) | inr x ↦ inr (g ∙ x) ];
    other_stays = λ k n. inl refl;
    counter = f;
    from = v.from;
    settled = rw (← e) (inl (refl, access.get-store dict j f f' v.own, refl));
  }

  pub record_access-Records :
      (r : PrisonRule access prison) (j : AccessSign) (clock : Clock)
      → Records r j clock (record_access access prison r j clock)
  unfolding record_access
  record_access-Records r j clock =
      let g = access.get r.access_dict j in
      let x = counter_of access prison g j clock.created in
      settle-Records r j clock x.0 x.1 (counted r clock x.0)
        (counter_of-IsCounter r j clock.created g (λ k. access.get-get r.access_dict j k) refl) refl
