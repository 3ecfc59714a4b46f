-- ===== src/Gslb/Balance/Sticky.antt =====
-- The backend of a sticky session, as `LookupStickyBackend` finds it.
use bfe.Common.{
  ℕ, suc, ◌+◌, ◌≡◌, refl, ap, inl, inr, ◌&&◌, Option, none, some, List, [], ◌∷◌, Bytes, bytes_eq,
  get_elem?, arith, Bool-cases,
}
use bfe.Common.Int.{}
use bfe.Backend.{sprintf_addr}
use bfe.Slb.Balancer.{BackendList, is_eligible, addr_info, Result, BalanceError, ok, err}
use bfe.Slb.Balance.{}
use bfe.Slb.Balance.Avail.{AvailAt}
use bfe.Slb.Sticky.{look_up_backend, look_up_loop}
use bfe.Gslb.{SubCluster}
use bfe.Gslb.HashKey.{Request, StickyContext, no_sticky, wrong_type, sticky_backend}
use bfe.Gslb.Weights.{has_weight}
use bfe.Gslb.Select.{find_weighted, after_look_up, look_up_in, look_up_sticky}
use bfe.Gslb.Balance.{World}

-- The backend at these positions is available, and the request names its sub-cluster.
abbrev pub Serves : World → ℕ → ℕ → Type 0
Serves w i j =
    (sub : SubCluster) × (get_elem? w.bal.sub_clusters i ≡ some sub)
    × (sub.name ≡ w.req.sub_cluster_name)
    × AvailAt sub.backends.backends j

pub result_not_ok : {e : BalanceError} {j : ℕ} → ◌≡◌ {A = Result ℕ} (err e) (ok j) → ⊥
result_not_ok h = cc

pub ok_position : {i j : ℕ} → ok i ≡ ok j → i ≡ j
ok_position h = cc

pub find_weighted-get :
    (name : Bytes) (i : ℕ) (subs : List SubCluster) (k : ℕ) (s : SubCluster)
    → find_weighted name i subs ≡ some (k, s)
    → (n : ℕ) × (i + n ≡ k) × (get_elem? subs n ≡ some s)
unfolding find_weighted
find_weighted-get name i [] k s h = cc
find_weighted-get name i (x ∷ subs) k s h =
    elim (Bool-cases (bytes_eq x.name name && has_weight x)) [
      | inl e ↦ at_head (rw e at h)
      | inr e ↦
          let (n, p, g) = find_weighted-get name (suc i) subs k s (rw e at h) in
          (suc n, omega arith, g)
    ]
  where
    at_head :
        ◌≡◌ {A = Option (ℕ × SubCluster)} (some (i, x)) (some (k, s))
        → (n : ℕ) × (i + n ≡ k) × (get_elem? (x ∷ subs) n ≡ some s)
    at_head e = let here : i ≡ k = cc in let same : x ≡ s = cc in (0, omega arith, ap some same)

pub look_up_loop-AvailAt :
    (addr : Bytes) (i : ℕ) (bs : BackendList) (j : ℕ)
    → look_up_loop addr i bs ≡ ok j
    → (n : ℕ) × (i + n ≡ j) × AvailAt bs n
unfolding look_up_loop
look_up_loop-AvailAt addr i [] j h = absurd (result_not_ok h)
look_up_loop-AvailAt addr i (b ∷ bs) j h =
    elim (Bool-cases (bytes_eq (addr_info b) addr && is_eligible b)) [
      | inl e ↦
          let here : i ≡ j = ok_position (rw e at h) in (0, omega arith, (b, refl, ground arith))
      | inr e ↦
          let (n, p, v) = look_up_loop-AvailAt addr (suc i) bs j (rw e at h) in
          (suc n, omega arith, v)
    ]

abbrev pub IsFound : World → Request × Option (ℕ × ℕ) → Type 0
IsFound w (req, o) = (i j : ℕ) → o ≡ some (i, j) → Serves (record w { req = req }) i j

pub not_found : {i j : ℕ} → ◌≡◌ {A = Option (ℕ × ℕ)} none (some (i, j)) → ⊥
not_found h = cc

pub after_look_up-IsFound :
    (w : World) (k : ℕ) (sub : SubCluster) (r : Result ℕ)
    → get_elem? w.bal.sub_clusters k ≡ some sub
    → ((j : ℕ) → r ≡ ok j → AvailAt sub.backends.backends j)
    → IsFound w (after_look_up w.req k sub r)
after_look_up-IsFound w k sub (err e) g f = λ i j h. absurd (not_found h)
after_look_up-IsFound w k sub (ok m) g f = λ i j h.
    let here : k ≡ i = cc in let same : m ≡ j = cc in rw (← here, ← same) (sub, g, refl, f m refl)

pub look_up_in-IsFound :
    (w : World) (addr : Bytes) (o : Option (ℕ × SubCluster))
    → ((k : ℕ) (sub : SubCluster)
        → ◌≡◌ {A = Option (ℕ × SubCluster)} o (some (k, sub))
        → get_elem? w.bal.sub_clusters k ≡ some sub)
    → IsFound w (look_up_in w.req addr o)
unfolding look_up_backend
look_up_in-IsFound w addr none g = λ i j h. absurd (not_found h)
look_up_in-IsFound w addr (some (k, sub)) g =
    after_look_up-IsFound w k sub (look_up_backend addr sub.backends) (g k sub refl) λ j h.
      let (n, p, v) = look_up_loop-AvailAt addr 0 sub.backends.backends j h in
      let same : n ≡ j = omega (arith, p) in rw same at v

pub sticky-IsFound : (w : World) (s : StickyContext) → IsFound w (look_up_sticky w.bal w.req s)
sticky-IsFound w no_sticky = λ i j h. absurd (not_found h)
sticky-IsFound w wrong_type = λ i j h. absurd (not_found h)
sticky-IsFound w (sticky_backend name addr port) =
    look_up_in-IsFound w (sprintf_addr addr port) (find_weighted name 0 w.bal.sub_clusters)
      λ k sub h.
        let (n, p, g) = find_weighted-get name 0 w.bal.sub_clusters k sub h in
        let same : n ≡ k = omega (arith, p) in rw same at g
