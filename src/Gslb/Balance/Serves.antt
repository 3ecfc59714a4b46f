-- ===== src/Gslb/Balance/Serves.antt =====
-- Where `Balance` sends a request.
use bfe.Common.{
  ℕ, zero, suc, ◌<◌, ◌≡◌, refl, ◌∙◌, inl, inr, Bool, true, false, Option, none, some, List, [], ◌∷◌,
  Bytes, bytes_eq, if◌then◌else◌, ◌==◌, get_elem?, length, get_elem?-set_self, arith, Bool-cases,
  codes,
}
use bfe.Common.Int.{pos, ◌+ℤ◌, ltb_ℤ, leb_ℤ}
use bfe.Backend.{}
use bfe.Slb.Balancer.{Result, BalanceError, ok, err}
use bfe.Slb.Balance.{Algor, Env, wrr_smooth, wrr_sticky, wlc_smooth}
use bfe.Slb.Balance.Avail.{AvailAt, is_gslb_algor, balance-AvailAt}
use bfe.Slb.Sticky.{}
use bfe.Gslb.{SubCluster, BalanceGslb}
use bfe.Gslb
use bfe.Gslb.HashKey.{Request, ErrCode, get_hash_key}
use bfe.Gslb.Weights.{}
use bfe.Gslb.Select.{
  Selection, selected, no_sub_cluster, missing, is_blackhole, random_select_exclude,
  sub_cluster_balance, look_up_sticky_backend, look_up_sticky,
}
use bfe.Gslb.Balance.{
  GslbEnv, World, Answer, chosen, failed, panics, is_panic, balance_algor, balance_at, cross_at,
  cross_balance, in_cluster_balance, balance_in, select_and_balance, gave_up, balance,
}
use bfe.Gslb.Balance.Sticky.{Serves, result_not_ok, IsFound, sticky-IsFound}

abbrev IsSound : World × Answer → Type 0
IsSound (w, a) = (i j : ℕ) → a ≡ chosen i j → Serves w i j

pub balance_algor-gslb : (bal : BalanceGslb) → is_gslb_algor (balance_algor bal) ≡ true
balance_algor-gslb bal = go bal.hash_conf.session_sticky (bytes_eq bal.balance_mode (codes "WLC"))
  where
    go :
        (s t : Bool)
        → is_gslb_algor (if s then wrr_sticky else if t then wlc_smooth else wrr_smooth) ≡ true
    go true t = refl
    go false true = refl
    go false false = refl

sub_balance-AvailAt :
    (env : Env) (algor : Algor) (key : Bytes) (sub : SubCluster) (j : ℕ)
    → is_gslb_algor algor ≡ true
    → (Gslb.balance env algor (some key) sub).1 ≡ ok j
    → AvailAt (Gslb.balance env algor (some key) sub).0.backends.backends j
      × ((Gslb.balance env algor (some key) sub).0.name ≡ sub.name)
unfolding Gslb.balance
sub_balance-AvailAt env algor key sub j g = elim (Bool-cases (length sub.backends.backends == 0)) [
  | inl e ↦ rw e λ h. absurd (result_not_ok h)
  | inr e ↦ rw e λ h. (balance-AvailAt env algor key sub.backends j g h, refl)
]

get-length :
    (subs : List SubCluster) (i : ℕ) (s : SubCluster) → get_elem? subs i ≡ some s → i < length subs
get-length [] i s g = ground arith
get-length (x ∷ subs) zero s g = omega arith
get-length (x ∷ subs) (suc i) s g = omega (arith, get-length subs i s g)

balance_at-Serves :
    (env : Env) (algor : Algor) (key : Bytes) (i : ℕ) (sub : SubCluster) (bal : BalanceGslb) (j : ℕ)
    → is_gslb_algor algor ≡ true
    → get_elem? bal.sub_clusters i ≡ some sub
    → (balance_at env algor (some key) i sub bal).1 ≡ ok j
    → (s : SubCluster) × (get_elem? (balance_at env algor (some key) i sub bal).0.sub_clusters i
        ≡ some s)
      × (s.name ≡ sub.name)
      × AvailAt s.backends.backends j
unfolding balance_at
balance_at-Serves env algor key i sub bal j g t h =
    let (a, n) = sub_balance-AvailAt env algor key sub j g h in
    (_, get_elem?-set_self bal.sub_clusters i _ (get-length bal.sub_clusters i sub t), n, a)

chosen_position : {i j k l : ℕ} → chosen i j ≡ chosen k l → i ≡ k
chosen_position h = cc

chosen_backend : {i j k l : ℕ} → chosen i j ≡ chosen k l → j ≡ l
chosen_backend h = cc

answer-IsSound : (w : World) (i j : ℕ) → Serves w i j → IsSound (w, chosen i j)
answer-IsSound w i j s k l h =
    let e : i ≡ k = chosen_position h in let f : j ≡ l = chosen_backend h in rw (← e, ← f) s

-- What follows an attempt at the sub-cluster at position i.
attempt-IsSound :
    (w : World) (i : ℕ) (otherwise : BalanceError → World × Answer) (r : Result ℕ)
    → ((j : ℕ) → r ≡ ok j → Serves w i j)
    → ((e : BalanceError) → IsSound (otherwise e))
    → IsSound (elim r [ ok j ↦ (w, chosen i j) | err e ↦ otherwise e ])
attempt-IsSound w i otherwise (ok j) s f = answer-IsSound w i j (s j refl)
attempt-IsSound w i otherwise (err e) s f = f e

failed_not_chosen : {e : ErrCode} {i j : ℕ} → failed e ≡ chosen i j → ⊥
failed_not_chosen h = cc

panics-IsSound : (w : World) → IsSound (w, panics)
panics-IsSound w i j h = cc

if_IsSound :
    (t : Bool) (x y : World × Answer) → IsSound x → IsSound y → IsSound (if t then x else y)
if_IsSound true x y p q = p
if_IsSound false x y p q = q

selection-IsSound :
    (to : ℕ → World × Answer) (none_left lost : World × Answer) (s : Selection)
    → ((i : ℕ) → IsSound (to i))
    → IsSound none_left
    → IsSound lost
    → IsSound (elim s [ selected i ↦ to i | no_sub_cluster ↦ none_left | missing ↦ lost ])
selection-IsSound to none_left lost (selected i) p q r = p i
selection-IsSound to none_left lost no_sub_cluster p q r = q
selection-IsSound to none_left lost missing p q r = r

cross_at-IsSound :
    (env : GslbEnv) (algor : Algor) (key : Bytes) (i : ℕ) (o : Option SubCluster) (w : World)
    → is_gslb_algor algor ≡ true
    → get_elem? w.bal.sub_clusters i ≡ o
    → IsSound (cross_at env algor key i o w)
unfolding cross_at
cross_at-IsSound env algor key i none w g t = panics-IsSound w
cross_at-IsSound env algor key i (some sub) w g t =
    let w' = record w {
      req = record (w.req) { sub_cluster_name = sub.name };
      bal = (balance_at env.slb algor (some key) i sub w.bal).0;
    } in
    attempt-IsSound _ i _ (balance_at env.slb algor (some key) i sub w.bal).1
      (λ j h. balance_at-Serves env.slb algor key i sub w.bal j g t h)
      (λ e.
        if_IsSound (is_panic e) (w', panics) _ (panics-IsSound w')
          (λ k l h. absurd (failed_not_chosen h)))

cross_balance-IsSound :
    (env : GslbEnv) (algor : Algor) (key : Bytes) (current : ℕ) (w : World)
    → is_gslb_algor algor ≡ true
    → IsSound (cross_balance env algor key current w)
unfolding cross_balance
cross_balance-IsSound env algor key current w g =
    if_IsSound (leb_ℤ w.bal.cross_retry (pos 0)) _ _ (λ k l h. absurd (failed_not_chosen h))
      (selection-IsSound _ _ _ (random_select_exclude env.rand_int31 current w.bal.sub_clusters)
        (λ i. cross_at-IsSound env algor key i _ _ g refl) (λ k l h. absurd (failed_not_chosen h))
        (λ k l h. absurd (failed_not_chosen h)))

in_cluster_balance-IsSound :
    (env : GslbEnv) (algor : Algor) (key : Bytes) (i : ℕ) (sub : SubCluster) (w : World)
    → is_gslb_algor algor ≡ true
    → get_elem? w.bal.sub_clusters i ≡ some sub
    → sub.name ≡ w.req.sub_cluster_name
    → IsSound (in_cluster_balance env algor key i sub w)
unfolding in_cluster_balance
in_cluster_balance-IsSound env algor key i sub w g t n =
    let w' = record w { bal = (balance_at env.slb algor (some key) i sub w.bal).0 } in
    attempt-IsSound w' i
      (λ e. if is_panic e then (w', panics) else cross_balance env algor key i (gave_up sub e w'))
      (balance_at env.slb algor (some key) i sub w.bal).1
      (λ j h.
        let (s, there, named, up) = balance_at-Serves env.slb algor key i sub w.bal j g t h in
        (s, there, named ∙ n, up))
      (λ e.
        if_IsSound (is_panic e) _ (cross_balance env algor key i (gave_up sub e w'))
          (panics-IsSound w') (cross_balance-IsSound env algor key i (gave_up sub e w') g))

balance_in-IsSound :
    (env : GslbEnv) (algor : Algor) (key : Bytes) (i : ℕ) (o : Option SubCluster) (w : World)
    → is_gslb_algor algor ≡ true
    → get_elem? w.bal.sub_clusters i ≡ o
    → IsSound (balance_in env algor key i o w)
unfolding balance_in
balance_in-IsSound env algor key i none w g t = panics-IsSound w
balance_in-IsSound env algor key i (some sub) w g t =
    let w' = record w { req = record (w.req) { sub_cluster_name = sub.name } } in
    if_IsSound (is_blackhole sub) _
      (if leb_ℤ w'.req.retry_time w'.bal.retry_max
        then in_cluster_balance env algor key i sub w'
        else cross_balance env algor key i w')
      (λ k l h. absurd (failed_not_chosen h))
      (if_IsSound (leb_ℤ w.req.retry_time w.bal.retry_max)
        (in_cluster_balance env algor key i sub w') (cross_balance env algor key i w')
        (in_cluster_balance-IsSound env algor key i sub w' g t refl)
        (cross_balance-IsSound env algor key i w' g))

select_and_balance-IsSound : (env : GslbEnv) (w : World) → IsSound (select_and_balance env w)
unfolding select_and_balance
select_and_balance-IsSound env w =
    selection-IsSound _ _ _
      (sub_cluster_balance env.slb.sum64 env.slb.rand_uint32
        (some (get_hash_key env.rand_key w.bal.hash_conf w.req)) w.bal)
      (λ i. balance_in-IsSound env _ _ i _ w (balance_algor-gslb w.bal) refl)
      (λ k l h. absurd (failed_not_chosen h)) (panics-IsSound w)

found-IsSound :
    (w : World) (p : Request × Option (ℕ × ℕ)) (otherwise : World × Answer)
    → IsFound w p
    → IsSound otherwise
    → IsSound (elim p.1 [ some (i, j) ↦ (record w { req = p.0 }, chosen i j) | none ↦ otherwise ])
found-IsSound w (req, none) otherwise f o = o
found-IsSound w (req, some (i, j)) otherwise f o =
    answer-IsSound (record w { req = req }) i j (f i j refl)

-- A request that `Balance` sends to a backend goes to an available one, of the sub-cluster that it
-- has named in the request: in the sub-cluster of its hash, across sub-clusters, and with a sticky
-- session.
pub balance-Serves :
    (env : GslbEnv) (w : World) (i j : ℕ)
    → (balance env w).1 ≡ chosen i j
    → Serves (balance env w).0 i j
unfolding balance look_up_sticky_backend
balance-Serves env w =
    if_IsSound (ltb_ℤ (w.bal.retry_max +ℤ w.bal.cross_retry) w.req.retry_time) _ _
      (λ k l h. absurd (failed_not_chosen h))
      (found-IsSound w (look_up_sticky w.bal w.req w.req.sticky) (select_and_balance env w)
        (sticky-IsFound w w.req.sticky) (select_and_balance-IsSound env w))
