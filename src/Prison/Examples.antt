-- ===== src/Prison/Examples.antt =====
-- A cache that never runs out of room, and a rule that lets two accesses pass in a period of 10.
use bfe.Common.{
  ℕ, ◌≡◌, refl, false, Option, none, some, List, [], ◌∷◌, if◌then◌else◌, ◌==◌, arith, inl, codes,
}
use bfe.Prison.{AccessSign, LruCache, AccessCounter, Clock, PrisonRule, init_dict, record_and_check}
use bfe.Prison.Fair.{run, accesses_of, run-passes}
use bfe.Prison.Release.{AllDenied, IsFull, free_time, accesses_by, denied_until_free_time}

abbrev lookup : {V : Type 0} → AccessSign → List (AccessSign × V) → Option V
lookup k [] = none
lookup k ((j, v) ∷ c) = if j == k then some v else lookup k c

abbrev delete : {V : Type 0} → AccessSign → List (AccessSign × V) → List (AccessSign × V)
delete k [] = []
delete k ((j, v) ∷ c) = if j == k then delete k c else (j, v) ∷ delete k c

lookup-delete :
    {V : Type 0} (k : AccessSign) (c : List (AccessSign × V)) → lookup k (delete k c) ≡ none
lookup-delete k [] = refl
lookup-delete k ((j, v) ∷ c) = ground (arith, lookup-delete k c)

lookup-delete_other :
    {V : Type 0} (j k : AccessSign) (c : List (AccessSign × V))
    → (j == k) ≡ false
    → lookup k (delete j c) ≡ lookup k c
lookup-delete_other j k [] e = refl
lookup-delete_other j k ((i, v) ∷ c) e = ground (arith, lookup-delete_other j k c e)

lookup-head :
    {V : Type 0} (k : AccessSign) (v : V) (c : List (AccessSign × V))
    → lookup k ((k, v) ∷ c) ≡ some v
lookup-head k v c = ground arith

lookup-tail :
    {V : Type 0} (j k : AccessSign) (v : V) (c : List (AccessSign × V))
    → (j == k) ≡ false
    → lookup k ((j, v) ∷ c) ≡ lookup k c
lookup-tail j k v c e = ground (arith, e)

abbrev roomy : (V : Type 0) → LruCache V
roomy V = record {
  Cache = List (AccessSign × V);
  new = λ n. [];
  enlarge_capacity = λ c n. c;
  get = λ c k. (lookup k c, c);
  add = λ c k v. (k, v) ∷ c;
  del = λ c k. delete k c;
  store = λ c k v. (k, v) ∷ c;
  get-new = λ n k. refl;
  get-enlarge = λ c n k. refl;
  get-get = λ c j k. refl;
  get-add = λ c k v. lookup-head k v c;
  get-add_other = λ c j k v e. inl (lookup-tail j k v c e);
  get-store = λ c k u v e. lookup-head k v c;
  get-store_other = λ c j k v e. lookup-tail j k v c e;
  get-del = λ c k. lookup-delete k c;
  get-del_other = λ c j k e. lookup-delete_other j k c e;
}

abbrev rule : PrisonRule (roomy AccessCounter) (roomy ℕ)
rule = record {
  name = codes "two";
  action = codes "CLOSE";
  check_period_ns = 10;
  stay_period_ns = 100;
  threshold = 2;
  access_dict_size = 5;
  prison_dict_size = 5;
  access_dict = [];
  prison_dict = [];
}

-- A clock that stands still during an access.
abbrev at : ℕ → Clock
at now = record {
  first_check = now;
  created = now;
  counted = now;
  restarted = now;
  imprisoned = now;
  last_check = now;
}

run-passes_example :
    (record_and_check
      (roomy AccessCounter)
      (roomy ℕ)
      (run
        (roomy AccessCounter)
        (roomy ℕ)
        (init_dict (roomy AccessCounter) (roomy ℕ) rule none)
        ((7, at 1) ∷ (8, at 2) ∷ (8, at 3) ∷ (8, at 4) ∷ []))
      7
      (at 5)).2
    ≡ false
unfolding accesses_of
run-passes_example =
    run-passes (roomy AccessCounter) (roomy ℕ) rule
      ((7, at 1) ∷ (8, at 2) ∷ (8, at 3) ∷ (8, at 4) ∷ []) 7 (at 5) (omega arith) (omega arith)

-- The counter of sign 7 is full since time 1.
abbrev full_counter : AccessCounter
full_counter = record { count = 2; start_time = 1 }

abbrev full_rule : PrisonRule (roomy AccessCounter) (roomy ℕ)
full_rule = record rule { access_dict = (7, full_counter) ∷ [] }

full : IsFull (roomy AccessCounter) (roomy ℕ) full_rule 7 full_counter (at 5)
full = record { counter = refl; full = refl; within = omega arith; limit = omega arith }

denied_until_free_time_example :
    AllDenied (roomy AccessCounter) (roomy ℕ) full_rule 7 (at 5 ∷ at 50 ∷ at 110 ∷ [])
    × ((record_and_check
          (roomy AccessCounter)
          (roomy ℕ)
          (run
            (roomy AccessCounter)
            (roomy ℕ)
            full_rule
            (accesses_by 7 (at 5 ∷ at 50 ∷ at 110 ∷ [])))
          7
          (at 111)).2
        ≡ false)
unfolding free_time
denied_until_free_time_example =
    denied_until_free_time (roomy AccessCounter) (roomy ℕ) full_rule 7 full_counter (at 5) refl full
      (omega arith) (omega arith) (at 50 ∷ at 110 ∷ []) (omega arith, (omega arith, tt)) (at 111)
      (omega arith)
