-- ===== src/Slb/Balance/Avail.antt =====
-- What every algorithm but the simple one keeps to: it chooses among the available backends.
use mathlib.Core.Path.{Σ_path}
use bfe.Common.{
  ℕ, zero, suc, ◌≡◌, refl, sym, ap, ◌∙◌, inl, inr, Bool, true, false, Option, none, some, List, [],
  ◌∷◌, Bytes, if◌then◌else◌, get_elem?, arith, Option-cases,
}
use bfe.Common.Int.{ℤ}
use bfe.Slb.Backends.{BackendRr}
use bfe.Slb.Balancer.{BalanceRr, BackendList, Result, BalanceError, ok, err, ensure_sorted_unlocked}
use bfe.Slb.Smooth.{smooth_loop, charge, charge_best, bump, smooth_balance, no_pick, Pick}
use bfe.Slb.Smooth.Choice.{smooth_balance-ok}
use bfe.Slb.LeastConns.{is_member, least_conns_balance, least_conns_smooth_balance}
use bfe.Slb.LeastConns.Choice.{
  EligibleAt, AllEligibleAt, candidates, of_candidates, smooth_among, candidates-AllEligibleAt,
}
use bfe.Slb.Sticky.{sticky_balance}
use bfe.Slb.Sticky.Choice.{sticky_select-cases}
use bfe.Slb.Balance.{
  Algor, Env, balance, choose, looked_at, wrr_simple, wrr_smooth, wrr_sticky, wlc_simple,
  wlc_smooth, other,
}

abbrev pub AvailAt : BackendList → ℕ → Type 0
AvailAt bs i = (b : BackendRr) × (get_elem? bs i ≡ some b) × (b.backend.avail ≡ true)

EligibleAt→AvailAt : (bs : BackendList) (i : ℕ) → EligibleAt bs i → AvailAt bs i
EligibleAt→AvailAt bs i (b, g, e) = (b, g, ground arith)

head_avail : (b c : BackendRr) → some b ≡ some c → c.backend.avail ≡ true → b.backend.avail ≡ true
head_avail b c g v = let same : b ≡ c = cc in ap (λ (x : BackendRr). x.backend.avail) same ∙ v

if_avail :
    (t : Bool) (b : BackendRr)
    → b.backend.avail ≡ true
    → (if t then bump b else b).backend.avail ≡ true
if_avail true b v = v
if_avail false b v = v

charge-AvailAt :
    (t : ℤ) (j : ℕ) (bs : BackendList) (i : ℕ) → AvailAt bs i → AvailAt (charge t j bs) i
unfolding charge
charge-AvailAt t j [] i a = a
charge-AvailAt t zero (b ∷ bs) zero (c, g, v) = (_, refl, head_avail b c g v)
charge-AvailAt t zero (b ∷ bs) (suc i) a = a
charge-AvailAt t (suc j) (b ∷ bs) zero a = a
charge-AvailAt t (suc j) (b ∷ bs) (suc i) a = charge-AvailAt t j bs i a

smooth_loop-AvailAt :
    (member : ℕ → Bool) (n : ℕ) (bs : BackendList) (s : Pick) (i : ℕ)
    → AvailAt bs i
    → AvailAt (smooth_loop member n bs s).0 i
unfolding smooth_loop
smooth_loop-AvailAt member n [] s i a = a
smooth_loop-AvailAt member n (b ∷ bs) s zero (c, g, v) =
    (_, refl, if_avail _ b (head_avail b c g v))
smooth_loop-AvailAt member n (b ∷ bs) s (suc i) a = smooth_loop-AvailAt member (suc n) bs _ i a

charge_best-AvailAt :
    (s : Pick) (bs : BackendList) (i : ℕ) → AvailAt bs i → AvailAt (charge_best s bs) i
charge_best-AvailAt s bs i a = go s.best
  where
    go : (o : Option ℕ) → AvailAt (charge_best (record s { best = o }) bs) i
    go none = a
    go (some j) = charge-AvailAt s.total j bs i a

smooth_balance-AvailAt :
    (member : ℕ → Bool) (bs : BackendList) (i : ℕ)
    → AvailAt bs i
    → AvailAt (smooth_balance member bs).0 i
unfolding smooth_balance
smooth_balance-AvailAt member bs i a =
    charge_best-AvailAt (smooth_loop member 0 bs no_pick).1 _ i
      (smooth_loop-AvailAt member 0 bs no_pick i a)

smooth_balance-chosen :
    (member : ℕ → Bool) (bs : BackendList) (i : ℕ)
    → (smooth_balance member bs).1 ≡ ok i
    → AvailAt (smooth_balance member bs).0 i
smooth_balance-chosen member bs i h =
    let (b, g, t, _, _) =
      smooth_balance-ok member bs (smooth_balance member bs).0 i (Σ_path refl h) in
    smooth_balance-AvailAt member bs i (b, g, ground (arith, t))

ok_injective : {i j : ℕ} → ok i ≡ ok j → i ≡ j
ok_injective h = cc

err_not_ok : {e : BalanceError} {i : ℕ} → ◌≡◌ {A = Result ℕ} (err e) (ok i) → ⊥
err_not_ok h = cc

sticky_balance-chosen :
    (sum64 : Bytes → ℕ) (r : ℕ) (key : Bytes) (brr : BalanceRr) (i : ℕ)
    → (sticky_balance sum64 r (some key) brr).1 ≡ ok i
    → AvailAt (sticky_balance sum64 r (some key) brr).0.backends i
unfolding sticky_balance
sticky_balance-chosen sum64 r key brr i h =
    elim (sticky_select-cases sum64 r key (ensure_sorted_unlocked brr).backends) [
      | inl (j, b, e, g, t) ↦
          let same = ok_injective (sym e ∙ h) in rw (← same) (b, g, ground (arith, t))
      | inr (e, _) ↦ absurd (err_not_ok (sym e ∙ h))
    ]

among-chosen :
    (bs : BackendList) (js : List ℕ) (i : ℕ)
    → AllEligibleAt bs js
    → (smooth_among bs (of_candidates js)).1 ≡ ok i
    → AvailAt (smooth_among bs (of_candidates js)).0 i
among-chosen bs [] i a h = absurd (err_not_ok h)
among-chosen bs (j ∷ []) i a h = EligibleAt→AvailAt bs i (rw (ok_injective h) at (a.0))
among-chosen bs (j ∷ k ∷ js) i a h = smooth_balance-chosen (is_member (j ∷ k ∷ js)) bs i h

least_conns-chosen :
    (bs : BackendList) (i : ℕ)
    → (least_conns_smooth_balance bs).1 ≡ ok i
    → AvailAt (least_conns_smooth_balance bs).0 i
unfolding least_conns_smooth_balance least_conns_balance
least_conns-chosen bs i h = among-chosen bs (candidates bs) i (candidates-AllEligibleAt bs) h

-- The algorithms that `BalanceGslb` uses.
abbrev pub is_gslb_algor : Algor → Bool
is_gslb_algor wrr_smooth = true
is_gslb_algor wrr_sticky = true
is_gslb_algor wlc_smooth = true
is_gslb_algor _ = false

choose-AvailAt :
    (env : Env) (algor : Algor) (key : Bytes) (brr : BalanceRr) (i : ℕ)
    → is_gslb_algor algor ≡ true
    → (choose env algor (some key) brr).1 ≡ ok i
    → AvailAt (choose env algor (some key) brr).0.backends i
unfolding choose
choose-AvailAt env wrr_smooth key brr i g h = smooth_balance-chosen (λ _. true) brr.backends i h
choose-AvailAt env wrr_sticky key brr i g h =
    sticky_balance-chosen env.sum64 env.rand_uint32 key brr i h
choose-AvailAt env wlc_smooth key brr i g h = least_conns-chosen brr.backends i h
choose-AvailAt env wrr_simple key brr i g h = cc
choose-AvailAt env wlc_simple key brr i g h = cc
choose-AvailAt env other key brr i g h = cc

-- For a request with a key, smooth and sticky round robin and smooth least connections return only a
-- backend that is available, at its position in the balancer that the call leaves.
pub balance-AvailAt :
    (env : Env) (algor : Algor) (key : Bytes) (brr : BalanceRr) (i : ℕ)
    → is_gslb_algor algor ≡ true
    → (balance env algor (some key) brr).1 ≡ ok i
    → AvailAt (balance env algor (some key) brr).0.backends i
unfolding balance
balance-AvailAt env algor key brr i g = elim (Option-cases (looked_at env algor brr)) [
  | inl e ↦ rw (balance, e) λ h. absurd (err_not_ok h)
  | inr (brr', e) ↦ rw (balance, e) λ h. choose-AvailAt env algor key brr' i g h
]
