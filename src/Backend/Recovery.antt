-- ===== src/Backend/Recovery.antt =====
-- health_check.go, the loop of `check`, against what it is to decide: has the backend passed
-- `SuccNum` probes in a row before it was deleted? Nothing else touches the backend here;
-- Backend.Checker has the other events.
use bfe.Common.{
  ℕ, zero, suc, ◌+◌, ◌-◌, ◌≤◌, ◌<◌, ◌≡◌, refl, ◌∙◌, ◌||◌, is_some, Bool-cases, inl, inr, Bool, true,
  false, List, [], ◌∷◌, arith, leb, if◌then◌else◌, Option, none, some, ◌⊎◌,
}
use bfe.Backend.{BfeBackend, add_succ_num, reset_succ_num, check_avail, set_restart, set_avail}

-- What a round of the loop finds: whether the channel is closed, the SuccNum of the check conf that
-- it reads, if there is one, and the result of the probe.
pub record Round : Type 0 where
  pub closed : Bool
  pub conf : Option ℕ
  pub ok : Bool

-- The probe of a round, and whether the loop ends: a failed one resets the successes, a good one
-- counts.
unfoldable pub probe_round : ℕ → Bool → BfeBackend → BfeBackend × Bool
unfolding add_succ_num reset_succ_num check_avail
probe_round succ_threshold ok b =
    if ok then check_avail succ_threshold (add_succ_num b) else (reset_succ_num b, false)

unfoldable pub recover : BfeBackend → BfeBackend
unfolding set_restart set_avail
recover b = set_avail true (set_restart true b)

-- The loop is still running after these rounds, or it has ended because the backend is deleted, or
-- because it is back.
pub data CheckEnd : Type 0 where
  running stopped recovered : BfeBackend → CheckEnd

abbrev after_probe : BfeBackend × Bool → (BfeBackend → CheckEnd) → CheckEnd
after_probe (b, true) next = recovered (recover b)
after_probe (b, false) next = next b

pub check : List Round → BfeBackend → CheckEnd
unfolding probe_round recover
check [] b = running b
check (r ∷ rounds) b = elim r.closed [
  | true ↦ stopped b
  | false ↦ elim r.conf [
    | none ↦ check rounds b
    | some succ_threshold ↦ after_probe (probe_round succ_threshold r.ok b) (check rounds)
  ]
]

-- The loop over the results of the probes alone.
probe_loop : ℕ → List Bool → BfeBackend → Option BfeBackend
unfolding probe_round recover
probe_loop n [] b = none
probe_loop n (ok ∷ probes) b =
    let (b', done) = probe_round n ok b in
    let rest = probe_loop n probes b' in if done then some (recover b') else rest

-- `k` good probes at the head of the list.
pub starts_with_good : ℕ → List Bool → Bool
starts_with_good zero probes = true
starts_with_good (suc k) [] = false
starts_with_good (suc k) (ok ∷ probes) = if ok then starts_with_good k probes else false

-- `n` good probes in a row, somewhere in the list.
pub has_good_run : ℕ → List Bool → Bool
unfolding starts_with_good
has_good_run n [] = starts_with_good n []
has_good_run n (ok ∷ probes) =
    if starts_with_good n (ok ∷ probes) then true else has_good_run n probes

starts_with_good_mono :
    (m n : ℕ) (ps : List Bool) → m ≤ n → starts_with_good n ps ≡ true → starts_with_good m ps ≡ true
unfolding starts_with_good
starts_with_good_mono zero n ps h g = refl
starts_with_good_mono (suc m) zero ps h g = absurd (omega arith)
starts_with_good_mono (suc m) (suc n) [] h g = ground arith
starts_with_good_mono (suc m) (suc n) (ok ∷ ps) h g = ground (arith, starts_with_good_mono m n ps)

starts_with_good→has_good_run :
    (n : ℕ) (ps : List Bool) → starts_with_good n ps ≡ true → has_good_run n ps ≡ true
unfolding has_good_run
starts_with_good→has_good_run n [] h = h
starts_with_good→has_good_run n (ok ∷ ps) h = rw h

-- A good probe leaves one fewer to come; a run that starts earlier starts here.
good-step :
    (n k : ℕ) (ps : List Bool)
    → k + 1 < n
    → (starts_with_good (n - (k + 1)) ps || has_good_run n ps)
      ≡ (starts_with_good (n - k) (true ∷ ps) || has_good_run n (true ∷ ps))
unfolding starts_with_good has_good_run
good-step (suc n) k ps h =
    let e : suc n - k ≡ suc (n - k) = omega arith in
    let d : suc n - (k + 1) ≡ n - k = omega arith in
    rw (e, d) (ground (arith, starts_with_good_mono (n - k) n ps))
good-step zero k ps h = absurd (omega arith)

bad-step :
    (n k : ℕ) (ps : List Bool)
    → k < n
    → (starts_with_good (n - 0) ps || has_good_run n ps)
      ≡ (starts_with_good (n - k) (false ∷ ps) || has_good_run n (false ∷ ps))
unfolding starts_with_good has_good_run
bad-step zero k ps h = absurd (omega arith)
bad-step (suc n) k ps h =
    let e : suc n - k ≡ suc (n - k) = omega arith in
    let z : suc n - 0 ≡ suc n = omega arith in
    rw (e, z) (ground (arith, starts_with_good→has_good_run (suc n) ps))

-- With `succ_num` good probes seen already, the loop ends when the rest of a run comes first, or
-- when a whole run comes later.
probe_loop_counted :
    (n : ℕ) (probes : List Bool) (b : BfeBackend)
    → b.succ_num < n
    → is_some (probe_loop n probes b)
      ≡ (starts_with_good (n - b.succ_num) probes || has_good_run n probes)
unfolding probe_loop starts_with_good has_good_run
probe_loop_counted zero [] b h = absurd (omega arith)
probe_loop_counted (suc n) [] b h =
    let e : suc n - b.succ_num ≡ suc (n - b.succ_num) = omega arith in rw e
probe_loop_counted n (false ∷ ps) b h =
    probe_loop_counted n ps (reset_succ_num b) (omega arith) ∙ bad-step n b.succ_num ps h
probe_loop_counted n (true ∷ ps) b h = elim (Bool-cases (leb n (b.succ_num + 1))) [
  | inl last ↦ let e : n - b.succ_num ≡ 1 = ground arith in rw (last, e)
  | inr more ↦ rw more (
      probe_loop_counted n ps (add_succ_num b) (ground arith)
      ∙ good-step n b.succ_num ps (ground arith))
]

probe_loop-good_run :
    (n : ℕ) (probes : List Bool) (b : BfeBackend)
    → 0 < n
    → b.succ_num ≡ 0
    → is_some (probe_loop n probes b) ≡ has_good_run n probes
probe_loop-good_run n probes b h z =
    probe_loop_counted n probes b (omega arith)
    ∙ rw z (ground (arith, starts_with_good→has_good_run n probes))

-- Every check conf that the rounds read has this SuccNum.
abbrev pub AllRead : ℕ → List Round → Type 0
AllRead n [] = Unit
AllRead n (r ∷ rounds) = ((r.conf ≡ none) ⊎ (r.conf ≡ some n)) × AllRead n rounds

-- The results of the probes before the channel is closed.
pub probes_of : List Round → List Bool
probes_of [] = []
probes_of (r ∷ rounds) =
    let rest = probes_of rounds in
    if r.closed then [] else (elim r.conf [ none ↦ rest | some n ↦ r.ok ∷ rest ])

pub is_deleted : List Round → Bool
is_deleted [] = false
is_deleted (r ∷ rounds) = r.closed || is_deleted rounds

-- What the loop is to have come to, by whether the backend has been deleted, and whether there has
-- been a good run before that.
unfoldable pub HasEnded : Bool → Bool → CheckEnd → Type 0
HasEnded deleted good (running b) = (good ≡ false) × (deleted ≡ false)
HasEnded deleted good (stopped b) = (good ≡ false) × (deleted ≡ true)
HasEnded deleted good (recovered b) =
    (good ≡ true) × (b.avail ≡ true) × (b.restarted ≡ true) × (b.succ_num ≡ 0)

abbrev IsChecked : ℕ → List Round → BfeBackend → Type 0
IsChecked n rounds b =
    HasEnded (is_deleted rounds) (is_some (probe_loop n (probes_of rounds) b)) (check rounds b)

round-IsChecked :
    (n : ℕ) (closed : Bool) (conf : Option ℕ) (ok : Bool) (rounds : List Round) (b : BfeBackend)
    → (conf ≡ none) ⊎ (conf ≡ some n)
    → ((b' : BfeBackend) → IsChecked n rounds b')
    → IsChecked n ((record { closed = closed; conf = conf; ok = ok }) ∷ rounds) b
unfolding check HasEnded probes_of probe_loop is_deleted
round-IsChecked n true conf ok rounds b a f = (refl, refl)
round-IsChecked n false none ok rounds b a f = f b
round-IsChecked n false (some m) false rounds b a f = f (reset_succ_num b)
round-IsChecked n false (some m) true rounds b a f =
    let same : m ≡ n = reads a in rw same (probed (leb n (b.succ_num + 1)) refl)
  where
    reads : (some m ≡ none) ⊎ (some m ≡ some n) → m ≡ n
    reads (inl e) = cc
    reads (inr e) = cc

    probed :
        (t : Bool)
        → leb n (b.succ_num + 1) ≡ t
        → IsChecked n ((record { closed = false; conf = some n; ok = true }) ∷ rounds) b
    probed true e =
        let p : probe_round n true b ≡ (record (add_succ_num b) { succ_num = 0 }, true) =
          rw e refl in
        rw p (refl, refl, refl, refl)
    probed false e =
        let p : probe_round n true b ≡ (add_succ_num b, false) = rw e refl in
        rw p (f (add_succ_num b))

check-IsChecked :
    (n : ℕ) (rounds : List Round) (b : BfeBackend) → AllRead n rounds → IsChecked n rounds b
unfolding check HasEnded probes_of probe_loop is_deleted
check-IsChecked n [] b a = (refl, refl)
check-IsChecked n (r ∷ rounds) b a =
    round-IsChecked n r.closed r.conf r.ok rounds b a.0 (λ b'. check-IsChecked n rounds b' a.1)

-- For a positive `SuccNum` that the check conf keeps, the loop of a checker that starts with no
-- successes counted brings the backend back exactly if the results of its probes before the deletion
-- of the backend have `SuccNum` good ones in a row; it is then available, marked as restarted, with no
-- successes counted. Without such a run the loop stops if the backend is deleted, and runs on if not.
-- A round that finds no check conf does not count.
pub check-HasEnded :
    (n : ℕ) (rounds : List Round) (b : BfeBackend)
    → 0 < n
    → b.succ_num ≡ 0
    → AllRead n rounds
    → HasEnded (is_deleted rounds) (has_good_run n (probes_of rounds)) (check rounds b)
check-HasEnded n rounds b h z a =
    let e = probe_loop-good_run n (probes_of rounds) b h z in
    let c = check-IsChecked n rounds b a in rw e at c
