-- ===== src/Slb/Balancer.antt =====
-- bfe_balance/bal_slb/bal_rr.go: the balancer of a sub-cluster and its configuration.
-- A `*BackendRR` or `*BfeBackend` that a method returns is its position in `backends`: each backend
-- is owned by one entry of one list. Every method holds the lock from start to end, but for
-- `Balance`, whose two critical sections are `check_slow_start` and the selection.
use bfe.Common.{
  ℕ, suc, Bool, true, false, ◌&&◌, Option, none, some, List, [], ◌∷◌, ◌++◌, map, Bytes,
  if◌then◌else◌, sort_by,
}
use bfe.Common.Int.{ℤ, pos, ltb_ℤ}
use bfe.Backend.{BackendConf, set_restart}
use bfe.Slb.Backends.{
  BackendRr, new_backend_rr, update_weight, match_addr_port, init_slow_start, update_slow_start,
}
use bfe.Slb.Backends

-- `fmt.Errorf` values, by what they say. `panicked` stands for a Go panic, `out_of_fuel` belongs to
-- the model only.
pub data BalanceError : Type 0 where
  all_backends_down sticky_balance_fail lookup_backend_fail no_backend : BalanceError
  panicked out_of_fuel : BalanceError

pub data Result {ℓ} (A : Type ℓ) : Type ℓ where
  ok : A → Result A
  err : BalanceError → Result A

abbrev pub BackendList : Type 0
BackendList = List BackendRr

pub record BalanceRr : Type 0 where
  pub name : Bytes
  pub backends : BackendList
  pub sorted : Bool
  pub next : ℕ
  pub slow_start_time : ℤ

unfoldable pub new_balance_rr : Bytes → BalanceRr
new_balance_rr name = record {
  name = name;
  backends = [];
  sorted = false;
  next = 0;
  slow_start_time = pos 0;
}

unfoldable pub reset_weight : BackendList → BackendList
reset_weight = map {A = BackendRr} λ b. record b { current = b.weight }

-- Eligible for a request: available, with a positive weight.
abbrev pub is_eligible : BackendRr → Bool
is_eligible b = b.backend.avail && ltb_ℤ (pos 0) b.weight

abbrev new_of_conf : Bytes → BackendConf → BackendRr
new_of_conf name conf = Backends.init name conf new_backend_rr

unfoldable pub init : List BackendConf → BalanceRr → BalanceRr
unfolding new_backend_rr Backends.init
init conf brr = record brr {
  backends = brr.backends ++ map (new_of_conf brr.name) conf;
  sorted = false;
  next = 0;
}

unfoldable pub set_slow_start : ℤ → BalanceRr → BalanceRr
set_slow_start ss_time brr = record brr { slow_start_time = ss_time }

-- The readings of the clock while one backend is looked at: in `initSlowStart`, if it starts a slow
-- start, and in `updateSlowStart`.
pub record Readings : Type 0 where
  pub init_time : ℕ
  pub update_time : ℕ

-- `none` is a panic.
unfoldable pub slow_start_round : ℤ → Readings → BackendRr → Option BackendRr
unfolding set_restart init_slow_start update_slow_start
slow_start_round ss_time clock b =
    let started =
      init_slow_start ss_time clock.init_time
        (record b { backend = set_restart false b.backend }) in
    update_slow_start clock.update_time (if b.backend.restarted then started else b)

-- The loop, at position i; `clock` has the readings by position.
unfoldable pub slow_start_loop : ℤ → (ℕ → Readings) → ℕ → BackendList → Option BackendList
unfolding slow_start_round
slow_start_loop ss_time clock i [] = some []
slow_start_loop ss_time clock i (b ∷ bs) = elim (slow_start_round ss_time (clock i) b) [
  | none ↦ none
  | some b' ↦ elim (slow_start_loop ss_time clock (suc i) bs) [
    | none ↦ none
    | some bs' ↦ some (b' ∷ bs')
  ]
]

unfoldable pub check_slow_start : (ℕ → Readings) → BalanceRr → Option BalanceRr
unfolding slow_start_loop
check_slow_start clock brr =
    let looked_at = slow_start_loop brr.slow_start_time clock 0 brr.backends in
    if ltb_ℤ (pos 0) brr.slow_start_time
    then elim looked_at [ none ↦ none | some bs ↦ some (record brr { backends = bs }) ]
    else some brr

-- The backends, all released; `none` if one of them was released before.
unfoldable pub release_all : BackendList → Option BackendList
unfolding Backends.release
release_all [] = some []
release_all (b ∷ bs) = elim (Backends.release b) [
  | none ↦ none
  | some b' ↦ elim (release_all bs) [ none ↦ none | some bs' ↦ some (b' ∷ bs') ]
]

abbrev pub addr_info : BackendRr → Bytes
addr_info b = b.backend.addr_info

-- `BackendListSorter` with sort.Sort.
unfoldable pub ensure_sorted_unlocked : BalanceRr → BalanceRr
unfolding sort_by
ensure_sorted_unlocked brr =
    if brr.sorted
    then brr
    else record brr { backends = sort_by addr_info brr.backends; sorted = true }
