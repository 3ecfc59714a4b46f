-- ===== src/Slb/Sticky.antt =====
-- bfe_balance/bal_slb/bal_rr.go: `stickyBalance`, `GetHash`, `LookUpBackend`.
pub mod Choice
use bfe.Common.{
  ℕ, suc, ◌%◌, ◌==◌, ◌&&◌, Option, none, some, List, [], ◌∷◌, Bytes, if◌then◌else◌, bytes_eq,
}
use bfe.Common.Int.{ℤ, pos, pos_part, ◌+ℤ◌, ◌-ℤ◌, ltb_ℤ}
use bfe.Slb.Backends.{BackendRr}
use bfe.Slb.Balancer.{
  BalanceRr, BackendList, Result, ok, err, all_backends_down, sticky_balance_fail, panicked,
  lookup_backend_fail, is_eligible, addr_info, ensure_sorted_unlocked,
}

-- `sum64` is murmur3.Sum64, and `r` what rand.Uint32 returns, which a nil key asks for.
-- `none`: the modulus is zero.
unfoldable pub get_hash : (Bytes → ℕ) → ℕ → Option Bytes → ℕ → Option ℕ
get_hash sum64 r key base =
    let hash : ℕ = elim key [ none ↦ r | some value ↦ sum64 value ] in
    if base == 0 then none else some (hash % base)

-- Candidates with their positions, and the sum of their weights.
unfoldable pub sticky_candidates : ℕ → BackendList → List (ℕ × BackendRr)
sticky_candidates i [] = []
sticky_candidates i (b ∷ bs) =
    if is_eligible b then (i, b) ∷ sticky_candidates (suc i) bs else sticky_candidates (suc i) bs

unfoldable pub total_weight : List (ℕ × BackendRr) → ℤ
total_weight [] = pos 0
total_weight ((i, b) ∷ cs) = b.weight +ℤ total_weight cs

-- The loop that takes the weights off the hash value.
unfoldable pub sticky_pick : ℤ → List (ℕ × BackendRr) → Result ℕ
sticky_pick value [] = err sticky_balance_fail
sticky_pick value ((i, b) ∷ cs) =
    let value' = value -ℤ b.weight in if ltb_ℤ value' (pos 0) then ok i else sticky_pick value' cs

unfoldable pub sticky_among : (Bytes → ℕ) → ℕ → Option Bytes → List (ℕ × BackendRr) → Result ℕ
unfolding total_weight get_hash sticky_pick
sticky_among sum64 r key [] = err all_backends_down
sticky_among sum64 r key (c ∷ cs) = elim (get_hash sum64 r key (pos_part (total_weight (c ∷ cs)))) [
  | none ↦ err panicked
  | some value ↦ sticky_pick (pos value) (c ∷ cs)
]

unfoldable pub sticky_select : (Bytes → ℕ) → ℕ → Option Bytes → BackendList → Result ℕ
unfolding sticky_candidates sticky_among
sticky_select sum64 r key backends = sticky_among sum64 r key (sticky_candidates 0 backends)

unfoldable pub sticky_balance : (Bytes → ℕ) → ℕ → Option Bytes → BalanceRr → BalanceRr × Result ℕ
unfolding ensure_sorted_unlocked sticky_select
sticky_balance sum64 r key brr =
    let brr' = ensure_sorted_unlocked brr in (brr', sticky_select sum64 r key brr'.backends)

unfoldable pub look_up_loop : Bytes → ℕ → BackendList → Result ℕ
look_up_loop addr i [] = err lookup_backend_fail
look_up_loop addr i (b ∷ bs) =
    if bytes_eq (addr_info b) addr && is_eligible b then ok i else look_up_loop addr (suc i) bs

unfoldable pub look_up_backend : Bytes → BalanceRr → Result ℕ
unfolding look_up_loop
look_up_backend addr brr = look_up_loop addr 0 brr.backends
