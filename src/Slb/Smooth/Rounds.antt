-- ===== src/Slb/Smooth/Rounds.antt =====
-- Many requests in a row over the whole list, and what one request does to one backend.
use bfe.Common.{
  ℕ, zero, suc, ◌≡◌, refl, ap, ◌∙◌, Bool, true, none, some, List, [], ◌∷◌, get_elem?, arith,
  if◌then◌else◌, ◌==◌, Bool-cases, inl, inr,
}
use bfe.Common.Int.{ℤ, pos, ◌+ℤ◌, ◌-ℤ◌, +ℤ_assoc, +ℤ_cancel_right, int_laws}
use bfe.Slb.Backends.{BackendRr}
use bfe.Slb.Balancer.{BackendList, Result, ok, err, is_eligible}
use bfe.Slb.Smooth.{charge, bump, smooth_balance}
use bfe.Slb.Smooth.Loop.{total_from, bump_from}

abbrev pub all : ℕ → Bool
all _ = true

abbrev pub log : Result ℕ → List ℕ → List ℕ
log (ok i) picks = i ∷ picks
log (err e) picks = picks

-- The list after n requests, and the positions chosen, the first request first. No other event
-- falls in between.
unfoldable pub smooth_rounds : ℕ → BackendList → BackendList × List ℕ
smooth_rounds zero bs = (bs, [])
smooth_rounds (suc n) bs =
    let (bs', r) = smooth_balance all bs in let rest = smooth_rounds n bs' in (rest.0, log r rest.1)

unfoldable pub count : ℕ → List ℕ → ℕ
count i [] = 0
count i (j ∷ js) = if i == j then suc (count i js) else count i js

-- The current weights of the eligible backends, added up.
unfoldable pub current_sum : BackendList → ℤ
current_sum [] = pos 0
current_sum (b ∷ bs) =
    let rest = current_sum bs in if is_eligible b then b.current +ℤ rest else rest

abbrev pub charged : Bool → ℤ → BackendRr → BackendRr
charged hit total b = if hit then record b { current = b.current -ℤ total } else b

abbrev pub bumped : BackendRr → BackendRr
bumped b = if is_eligible b then bump b else b

get-charge :
    (total : ℤ) (j k : ℕ) (bs : BackendList) (b : BackendRr)
    → get_elem? bs k ≡ some b
    → get_elem? (charge total j bs) k ≡ some (charged (k == j) total b)
unfolding charge
get-charge total j k [] b h = ground arith
get-charge total zero zero (x ∷ bs) b h = ground arith
get-charge total zero (suc k) (x ∷ bs) b h = ground arith
get-charge total (suc j) zero (x ∷ bs) b h = ground arith
get-charge total (suc j) (suc k) (x ∷ bs) b h = ground (arith, get-charge total j k bs b)

get-bump_from :
    (i k : ℕ) (bs : BackendList) (b : BackendRr)
    → get_elem? bs k ≡ some b
    → get_elem? (bump_from all i bs) k ≡ some (bumped b)
unfolding bump_from
get-bump_from i k [] b h = ground arith
get-bump_from i zero (x ∷ bs) b h = ground arith
get-bump_from i (suc k) (x ∷ bs) b h = get-bump_from (suc i) k bs b h

get-bump_from-none :
    (i k : ℕ) (bs : BackendList) → get_elem? bs k ≡ none → get_elem? (bump_from all i bs) k ≡ none
unfolding bump_from
get-bump_from-none i k [] h = refl
get-bump_from-none i zero (x ∷ bs) h = ground arith
get-bump_from-none i (suc k) (x ∷ bs) h = get-bump_from-none (suc i) k bs h

-- It makes no backends up.
pub get-settle-none :
    (total : ℤ) (j i k : ℕ) (bs : BackendList)
    → get_elem? bs k ≡ none
    → get_elem? (charge total j (bump_from all i bs)) k ≡ none
unfolding charge bump_from
get-settle-none total j i k [] h = refl
get-settle-none total zero i zero (x ∷ bs) h = ground arith
get-settle-none total (suc j) i zero (x ∷ bs) h = ground arith
get-settle-none total zero i (suc k) (x ∷ bs) h = get-bump_from-none (suc i) k bs h
get-settle-none total (suc j) i (suc k) (x ∷ bs) h = get-settle-none total j (suc i) k bs h

-- One request that chooses position j, seen from the backend at position k.
pub get-settle :
    (total : ℤ) (j k : ℕ) (bs : BackendList) (b : BackendRr)
    → get_elem? bs k ≡ some b
    → get_elem? (charge total j (bump_from all 0 bs)) k ≡ some (charged (k == j) total (bumped b))
get-settle total j k bs b h = get-charge total j k _ _ (get-bump_from 0 k bs b h)

total-charge :
    (t : ℤ) (j i : ℕ) (bs : BackendList) → total_from all i (charge t j bs) ≡ total_from all i bs
unfolding charge total_from
total-charge t j i [] = refl
total-charge t zero i (b ∷ bs) = refl
total-charge t (suc j) i (b ∷ bs) = rw (total-charge t j (suc i) bs)

total-bump :
    (i : ℕ) (bs : BackendList) → total_from all i (bump_from all i bs) ≡ total_from all i bs
unfolding bump_from total_from
total-bump i [] = refl
total-bump i (b ∷ bs) = ground (arith, total-bump (suc i) bs)

-- A request leaves the total of the weights alone.
pub total-settle :
    (t : ℤ) (j : ℕ) (bs : BackendList)
    → total_from all 0 (charge t j (bump_from all 0 bs)) ≡ total_from all 0 bs
total-settle t j bs = total-charge t j 0 _ ∙ total-bump 0 bs

sum-charge :
    (t : ℤ) (j : ℕ) (bs : BackendList) (b : BackendRr)
    → get_elem? bs j ≡ some b
    → is_eligible b ≡ true
    → current_sum (charge t j bs) +ℤ t ≡ current_sum bs
unfolding charge current_sum
sum-charge t j [] b h e = ground arith
sum-charge t zero (x ∷ bs) b h e =
    let e' : is_eligible x ≡ true = ground arith in rw e' (omega int_laws)
sum-charge t (suc j) (x ∷ bs) b h e = elim (Bool-cases (is_eligible x)) [
  | inl k ↦ rw k (+ℤ_assoc _ _ _ ∙ ap (λ z. x.current +ℤ z) (sum-charge t j bs b h e))
  | inr k ↦ rw k (sum-charge t j bs b h e)
]

sum-bump :
    (i : ℕ) (bs : BackendList)
    → current_sum (bump_from all i bs) ≡ current_sum bs +ℤ total_from all i bs
unfolding bump_from current_sum total_from
sum-bump i [] = omega int_laws
sum-bump i (b ∷ bs) = elim (Bool-cases (is_eligible b)) [
  | inl k ↦ rw (k, sum-bump (suc i) bs) (rw k (omega int_laws))
  | inr k ↦ rw (k, sum-bump (suc i) bs) (rw k refl)
]

-- The step of smooth round robin that chooses an eligible backend, over the whole list, moves weight
-- points from backend to backend and neither adds nor loses any.
pub sum-settle :
    (j : ℕ) (bs : BackendList) (b : BackendRr)
    → get_elem? bs j ≡ some b
    → is_eligible b ≡ true
    → current_sum (charge (total_from all 0 bs) j (bump_from all 0 bs)) ≡ current_sum bs
sum-settle j bs b h e =
    +ℤ_cancel_right _ _ (total_from all 0 bs)
      (sum-charge _ j _ (bumped b) (get-bump_from 0 j bs b h) (ground arith) ∙ sum-bump 0 bs)
