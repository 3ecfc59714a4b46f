-- ===== src/Gslb/Balance/Survives.antt =====
-- `Balance` never panics on a cluster whose counts are right.
use mathlib.Core.Path.{subst}
use bfe.Common.{
  ℕ, zero, suc, [], ◌∷◌, ◌==◌, length, get_elem?-set_ne, some_injective, Bool-cases, arith, ◌≡◌,
  refl, sym, ◌∙◌, ◌≢◌, inl, inr, Bool, true, false, Option, none, some, List, Bytes, if◌then◌else◌,
  get_elem?,
}
use bfe.Common.Int.{pos, ◌+ℤ◌, ltb_ℤ, leb_ℤ}
use bfe.Slb.Balancer.{Result, BalanceError, ok, err, all_backends_down, no_backend}
use bfe.Slb.Balance.{Algor, Env}
use bfe.Slb.Balance.Avail.{is_gslb_algor}
use bfe.Slb.Balance.Calm.{IsCalm, found, all_down, is_time, AllTimed, balance-IsCalm}
use bfe.Gslb
use bfe.Gslb.Balance.Serves.{balance_algor-gslb}
use bfe.Gslb.{SubCluster, BalanceGslb}
use bfe.Gslb.Consistent.{IsConsistent}
use bfe.Gslb.HashKey.{Request, ErrCode, get_hash_key}
use bfe.Gslb.Select.{
  Selection, selected, no_sub_cluster, missing, is_blackhole, may_take_over, random_select_exclude,
  sub_cluster_balance, look_up_sticky_backend,
}
use bfe.Gslb.Select.Share.{sub_cluster_balance-Owns}
use bfe.Gslb.Select.Cross.{random_select_exclude-cases}
use bfe.Gslb.Balance.{
  GslbEnv, World, Answer, chosen, failed, panics, is_panic, balance_at, cross_at, cross_balance,
  gave_up, in_cluster_balance, balance_in, select_and_balance, balance,
}

abbrev Survives : World × Answer → Type 0
Survives (w, a) = a ≢ panics

chosen-Survives : {i j : ℕ} → chosen i j ≢ panics
chosen-Survives h = cc

failed-Survives : {e : ErrCode} → failed e ≢ panics
failed-Survives h = cc

if_Survives :
    (t : Bool) (x y : World × Answer) → Survives x → Survives y → Survives (if t then x else y)
if_Survives true x y p q = p
if_Survives false x y p q = q

-- The times of slow start of a sub-cluster fit, those that its backends have been given too.
abbrev IsTimed : SubCluster → Type 0
IsTimed sub = (is_time sub.backends.slow_start_time ≡ true) × AllTimed sub.backends.backends

abbrev pub AllSubsTimed : List SubCluster → Type 0
AllSubsTimed [] = Unit
AllSubsTimed (s ∷ ss) = IsTimed s × AllSubsTimed ss

get-IsTimed :
    (subs : List SubCluster) (i : ℕ) (s : SubCluster)
    → AllSubsTimed subs
    → get_elem? subs i ≡ some s
    → IsTimed s
get-IsTimed [] i s a g = cc
get-IsTimed (x ∷ subs) zero s a g = subst IsTimed (some_injective x s g) a.0
get-IsTimed (x ∷ subs) (suc i) s a g = get-IsTimed subs i s a.1 g

-- All sub-clusters but the one at this position: the one that is excluded in a cross attempt.
abbrev OthersTimed : ℕ → List SubCluster → Type 0
OthersTimed current subs =
    (i : ℕ) (s : SubCluster) → current ≢ i → get_elem? subs i ≡ some s → IsTimed s

-- What a sub-cluster answers is no panic.
abbrev HasNoPanic : Result ℕ → Type 0
HasNoPanic r = (e : BalanceError) → r ≡ err e → is_panic e ≡ false

IsCalm→HasNoPanic : (r : Result ℕ) → IsCalm r → HasNoPanic r
IsCalm→HasNoPanic _ (found i) e h = absurd (ok_not_err h)
  where
    ok_not_err : {i : ℕ} {e : BalanceError} → ok i ≡ err e → ⊥
    ok_not_err h = cc
IsCalm→HasNoPanic _ all_down e h =
    let same : all_backends_down ≡ e = cc in subst (λ x. is_panic x ≡ false) same refl

balance_at-HasNoPanic :
    (env : Env) (algor : Algor) (key : Bytes) (i : ℕ) (sub : SubCluster) (bal : BalanceGslb)
    → is_gslb_algor algor ≡ true
    → IsTimed sub
    → HasNoPanic (balance_at env algor (some key) i sub bal).1
unfolding balance_at Gslb.balance
balance_at-HasNoPanic env algor key i sub bal g t =
    elim (Bool-cases (length sub.backends.backends == 0)) [
      | inl e ↦
          rw e λ x h. let same : no_backend ≡ x = cc in subst (λ z. is_panic z ≡ false) same refl
      | inr e ↦ rw e (IsCalm→HasNoPanic _ (balance-IsCalm env algor key sub.backends g t.0 t.1))
    ]

attempt-Survives :
    (w panicked : World) (i : ℕ) (otherwise : BalanceError → World × Answer) (r : Result ℕ)
    → HasNoPanic r
    → ((e : BalanceError) → Survives (otherwise e))
    → Survives (elim r [
      | ok j ↦ (w, chosen i j)
      | err e ↦ if is_panic e then (panicked, panics) else otherwise e
    ])
attempt-Survives w p i otherwise (ok j) n f = chosen-Survives
attempt-Survives w p i otherwise (err e) n f = rw (n e refl) (f e)

selection-Survives :
    (to : ℕ → World × Answer) (none_left lost : World × Answer) (s : Selection)
    → ((i : ℕ) → s ≡ selected i → Survives (to i))
    → Survives none_left
    → (s ≡ missing → Survives lost)
    → Survives (elim s [ selected i ↦ to i | no_sub_cluster ↦ none_left | missing ↦ lost ])
selection-Survives to none_left lost (selected i) p q r = p i refl
selection-Survives to none_left lost no_sub_cluster p q r = q
selection-Survives to none_left lost missing p q r = r refl

selected_position : {i j : ℕ} → selected i ≡ selected j → i ≡ j
selected_position h = cc

-- A random choice is in the list, and not the excluded one.
random_choice_there :
    (r exclude : ℕ) (subs : List SubCluster) (i : ℕ)
    → random_select_exclude r exclude subs ≡ selected i
    → (s : SubCluster) × (get_elem? subs i ≡ some s) × (exclude ≢ i)
random_choice_there r exclude subs i h = elim (random_select_exclude-cases exclude r subs) [
  | inl (j, s, e, g, t) ↦
      let same : j ≡ i = selected_position (sym e ∙ h) in
      (s, rw same at g, λ excluded. not_over exclude i s (rw same at t) excluded)
  | inr (e, n) ↦ absurd (lost (sym e ∙ h))
]
  where
    lost : no_sub_cluster ≡ selected i → ⊥
    lost h = cc

    not_over : (exclude i : ℕ) (s : SubCluster) → may_take_over exclude i s ≡ true → exclude ≢ i
    not_over exclude i s h e = ground (arith, h, e)

cross_at-Survives :
    (env : GslbEnv) (algor : Algor) (key : Bytes) (i : ℕ) (s : SubCluster) (o : Option SubCluster)
    (w : World)
    → is_gslb_algor algor ≡ true
    → IsTimed s
    → o ≡ some s
    → Survives (cross_at env algor key i o w)
unfolding cross_at
cross_at-Survives env algor key i s none w g t h = absurd (missing_sub h)
  where
    missing_sub : none ≡ some s → ⊥
    missing_sub h = cc
cross_at-Survives env algor key i s (some sub) w g t h =
    let w' = record w {
      req = record (w.req) { sub_cluster_name = sub.name };
      bal = (balance_at env.slb algor (some key) i sub w.bal).0;
    } in
    attempt-Survives w' w' i _ (balance_at env.slb algor (some key) i sub w.bal).1
      (balance_at-HasNoPanic env.slb algor key i sub w.bal g
        (subst IsTimed (sym (some_injective sub s h)) t))
      (λ e. failed-Survives)

cross_balance-Survives :
    (env : GslbEnv) (algor : Algor) (key : Bytes) (current : ℕ) (w : World)
    → is_gslb_algor algor ≡ true
    → OthersTimed current w.bal.sub_clusters
    → Survives (cross_balance env algor key current w)
unfolding cross_balance
cross_balance-Survives env algor key current w g t =
    if_Survives (leb_ℤ w.bal.cross_retry (pos 0)) _ _ failed-Survives (
      selection-Survives _ _ _ (random_select_exclude env.rand_int31 current w.bal.sub_clusters)
        (λ i h.
          let (s, there, ne) = random_choice_there env.rand_int31 current w.bal.sub_clusters i h in
          cross_at-Survives env algor key i s _ _ g (t i s ne there) there)
        failed-Survives (λ h. failed-Survives))

-- After the attempt at one sub-cluster the others are what they were.
others-balance_at :
    (env : Env) (algor : Algor) (key : Bytes) (i : ℕ) (sub : SubCluster) (bal : BalanceGslb)
    → AllSubsTimed bal.sub_clusters
    → OthersTimed i (balance_at env algor (some key) i sub bal).0.sub_clusters
unfolding balance_at
others-balance_at env algor key i sub bal t j s ne g =
    get-IsTimed bal.sub_clusters j s t (sym (get_elem?-set_ne bal.sub_clusters _ ne) ∙ g)

in_cluster_balance-Survives :
    (env : GslbEnv) (algor : Algor) (key : Bytes) (i : ℕ) (sub : SubCluster) (w : World)
    → is_gslb_algor algor ≡ true
    → IsTimed sub
    → AllSubsTimed w.bal.sub_clusters
    → Survives (in_cluster_balance env algor key i sub w)
unfolding in_cluster_balance
in_cluster_balance-Survives env algor key i sub w g t ts =
    let w' = record w { bal = (balance_at env.slb algor (some key) i sub w.bal).0 } in
    attempt-Survives w' w' i (λ e. cross_balance env algor key i (gave_up sub e w'))
      (balance_at env.slb algor (some key) i sub w.bal).1
      (balance_at-HasNoPanic env.slb algor key i sub w.bal g t)
      (λ e.
        cross_balance-Survives env algor key i (gave_up sub e w') g
          (others-balance_at env.slb algor key i sub w.bal ts))

balance_in-Survives :
    (env : GslbEnv) (algor : Algor) (key : Bytes) (i : ℕ) (s : SubCluster) (o : Option SubCluster)
    (w : World)
    → is_gslb_algor algor ≡ true
    → IsTimed s
    → AllSubsTimed w.bal.sub_clusters
    → o ≡ some s
    → Survives (balance_in env algor key i o w)
unfolding balance_in
balance_in-Survives env algor key i s none w g t ts h = absurd (missing_sub h)
  where
    missing_sub : none ≡ some s → ⊥
    missing_sub h = cc
balance_in-Survives env algor key i s (some sub) w g t ts h =
    let w' = record w { req = record (w.req) { sub_cluster_name = sub.name } } in
    let t' = subst IsTimed (sym (some_injective sub s h)) t in
    if_Survives (is_blackhole sub) _
      (if leb_ℤ w'.req.retry_time w'.bal.retry_max
        then in_cluster_balance env algor key i sub w'
        else cross_balance env algor key i w')
      failed-Survives
      (if_Survives (leb_ℤ w.req.retry_time w.bal.retry_max)
        (in_cluster_balance env algor key i sub w') (cross_balance env algor key i w')
        (in_cluster_balance-Survives env algor key i sub w' g t' ts)
        (cross_balance-Survives env algor key i w' g
          (λ j x ne there. get-IsTimed w.bal.sub_clusters j x ts there)))

select_and_balance-Survives :
    (env : GslbEnv) (w : World)
    → IsConsistent w.bal
    → AllSubsTimed w.bal.sub_clusters
    → Survives (select_and_balance env w)
unfolding select_and_balance
select_and_balance-Survives env w c ts =
    let key = get_hash_key env.rand_key w.bal.hash_conf w.req in
    let (i, s, e, g, p, o) =
      sub_cluster_balance-Owns env.slb.sum64 env.slb.rand_uint32 key w.bal c in
    let t = get-IsTimed w.bal.sub_clusters i s ts g in
    selection-Survives _ _ _
      (sub_cluster_balance env.slb.sum64 env.slb.rand_uint32 (some key) w.bal)
      (λ j h.
        let same : i ≡ j = selected_position (sym e ∙ h) in
        balance_in-Survives env _ key j s _ w (balance_algor-gslb w.bal) t ts (rw same at g))
      failed-Survives (λ h. absurd (not_missing (sym e ∙ h)))
  where
    not_missing : {i : ℕ} → selected i ≡ missing → ⊥
    not_missing h = cc

found-Survives :
    (w : World) (p : Request × Option (ℕ × ℕ)) (otherwise : World × Answer)
    → Survives otherwise
    → Survives (elim p.1 [ some (i, j) ↦ (record w { req = p.0 }, chosen i j) | none ↦ otherwise ])
found-Survives w (req, none) otherwise o = o
found-Survives w (req, some (i, j)) otherwise o = chosen-Survives

-- `Balance` on a consistent cluster gives every request a backend or an error, whatever the weights
-- and states of its backends and whatever the request, if the times of slow start are from 0 to
-- 9223372036 seconds: it never follows a missing sub-cluster or an index out of range, and neither
-- slow start nor the algorithm of a sub-cluster divides by zero.
pub balance-Survives :
    (env : GslbEnv) (w : World)
    → IsConsistent w.bal
    → AllSubsTimed w.bal.sub_clusters
    → (balance env w).1 ≢ panics
unfolding balance
balance-Survives env w c ts =
    if_Survives (ltb_ℤ (w.bal.retry_max +ℤ w.bal.cross_retry) w.req.retry_time) _ _ failed-Survives
      (found-Survives w (look_up_sticky_backend w.bal w.req) (select_and_balance env w)
        (select_and_balance-Survives env w c ts))
