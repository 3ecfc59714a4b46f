-- ===== src/Gslb/Balance.antt =====
-- bal_gslb.go, `Balance` and `PickBackend`. Both hold the lock from start to end.
pub mod Sticky
pub mod Serves
pub mod Survives
use bfe.Common.{
  ℕ, zero, suc, ◌+◌, Bool, true, false, Option, none, some, List, [], ◌∷◌, Bytes, codes,
  if◌then◌else◌, bytes_eq, get_elem?, set, length,
}
use bfe.Common.Int.{ℤ, pos, ◌+ℤ◌, ltb_ℤ, leb_ℤ}
use bfe.Slb.Balancer.{Result, ok, err, BalanceError, panicked, out_of_fuel}
use bfe.Slb.Balance.{Algor, Env, wrr_smooth, wrr_sticky, wlc_smooth}
use bfe.Gslb.{SubCluster, BalanceGslb}
use bfe.Gslb
use bfe.Gslb.HashKey.{
  Request, StickyContext, no_sticky, wrong_type, sticky_backend, ErrCode, bk_retry_too_many,
  bk_no_sub_cluster, gslb_blackhole_hit, bk_no_backend, bk_no_sub_cluster_cross,
  bk_cross_retry_balance, get_hash_key,
}
use bfe.Gslb.Select.{
  Selection, selected, no_sub_cluster, missing, is_blackhole, sub_cluster_balance,
  random_select_exclude, look_up_sticky_backend,
}

-- What a call reads besides its arguments.
pub record GslbEnv : Type 0 where
  pub slb : Env
  pub rand_key : Bytes
  pub rand_int31 : ℕ

-- BalErrState, the counters that balancing raises.
pub record BalErrState : Type 0 where
  pub err_bk_no_sub_cluster : ℕ
  pub err_bk_no_sub_cluster_cross : ℕ
  pub err_bk_no_backend : ℕ
  pub err_bk_retry_too_many : ℕ
  pub err_gslb_blackhole : ℕ
  pub err_epp_fallback_local : ℕ

pub record World : Type 0 where
  pub bal : BalanceGslb
  pub req : Request
  pub state : BalErrState

-- A backend, by the positions of its sub-cluster and of itself; an error; or a panic.
pub data Answer : Type 0 where
  chosen : ℕ → ℕ → Answer
  failed : ErrCode → Answer
  panics : Answer

-- The panics below, and the loop end of the model that stands for none.
abbrev pub is_panic : BalanceError → Bool
is_panic panicked = true
is_panic out_of_fuel = true
is_panic _ = false

-- The error is also left in the request.
abbrev fail_with : ErrCode → World → World × Answer
fail_with e w = (record w { req = record (w.req) { err_code = some e } }, failed e)

abbrev pub balance_algor : BalanceGslb → Algor
balance_algor bal =
    if bal.hash_conf.session_sticky
    then wrr_sticky
    else if bytes_eq bal.balance_mode (codes "WLC")
    then wlc_smooth
    else wrr_smooth

-- `current.balance` on the sub-cluster at position i.
unfoldable pub balance_at :
    Env → Algor → Option Bytes → ℕ → SubCluster → BalanceGslb → BalanceGslb × Result ℕ
unfolding Gslb.balance
balance_at env algor key i sub bal =
    let (sub', r) = Gslb.balance env algor key sub in
    (record bal { sub_clusters = set bal.sub_clusters i sub' }, r)

abbrev no_backend_in : SubCluster → BalanceError → World → World
no_backend_in sub e w = record w {
  req = record (w.req) { err_msg = some (w.bal.name, sub.name, e) };
  state = record (w.state) { err_bk_no_backend = w.state.err_bk_no_backend + 1 };
}

-- The second attempt, at a sub-cluster chosen at random; `none` is a position out of range.
unfoldable pub cross_at : GslbEnv → Algor → Bytes → ℕ → Option SubCluster → World → World × Answer
unfolding balance_at
cross_at env algor key i none w = (w, panics)
cross_at env algor key i (some sub) w =
    let w' = record w { req = record (w.req) { sub_cluster_name = sub.name } } in
    let (bal, r) = balance_at env.slb algor (some key) i sub w'.bal in
    let w'' = record w' { bal = bal } in
    elim r [
      | ok j ↦ (w'', chosen i j)
      | err e ↦
          let failed_here = no_backend_in sub e w'' in
          if is_panic e then (w'', panics) else (
            record failed_here { req = record (failed_here.req) { err_code = some bk_no_backend } },
            failed bk_cross_retry_balance,
          )
    ]

abbrev mark_cross : Request → Request
mark_cross req = record req {
  is_cross_cluster = elim req.is_cross_cluster [ none ↦ none | some _ ↦ some true ];
}

unfoldable pub cross_balance : GslbEnv → Algor → Bytes → ℕ → World → World × Answer
unfolding random_select_exclude cross_at
cross_balance env algor key current w =
    if leb_ℤ w.bal.cross_retry (pos 0)
    then fail_with bk_no_backend w
    else let w' = record w { req = mark_cross w.req } in
      elim (random_select_exclude env.rand_int31 current w'.bal.sub_clusters) [
        | selected i ↦ cross_at env algor key i (get_elem? w'.bal.sub_clusters i) w'
        | no_sub_cluster ↦ fail_with bk_no_sub_cluster_cross (record w' {
          state = record (w'.state) {
            err_bk_no_sub_cluster_cross = w'.state.err_bk_no_sub_cluster_cross + 1;
          };
        })
        | missing ↦ fail_with bk_no_sub_cluster_cross (record w' {
          state = record (w'.state) {
            err_bk_no_sub_cluster_cross = w'.state.err_bk_no_sub_cluster_cross + 1;
          };
        })
      ]

-- `req.RetryTime = bal.retryMax`: no more attempts here.
abbrev pub gave_up : SubCluster → BalanceError → World → World
gave_up sub e w =
    let w' = no_backend_in sub e w in
    record w' { req = record (w'.req) { retry_time = w'.bal.retry_max } }

-- The attempt in the sub-cluster of the request, and what follows where it has no backend.
unfoldable pub in_cluster_balance :
    GslbEnv → Algor → Bytes → ℕ → SubCluster → World → World × Answer
unfolding balance_at cross_balance
in_cluster_balance env algor key i sub w =
    let (bal, r) = balance_at env.slb algor (some key) i sub w.bal in
    let w' = record w { bal = bal } in
    elim r [
      | ok j ↦ (w', chosen i j)
      | err e ↦
          let crossed = cross_balance env algor key i (gave_up sub e w') in
          if is_panic e then (w', panics) else crossed
    ]

unfoldable pub balance_in : GslbEnv → Algor → Bytes → ℕ → Option SubCluster → World → World × Answer
unfolding in_cluster_balance cross_balance
balance_in env algor key i none w = (w, panics)
balance_in env algor key i (some sub) w =
    let w' = record w { req = record (w.req) { sub_cluster_name = sub.name } } in
    if is_blackhole sub
    then fail_with gslb_blackhole_hit (record w' {
      state = record (w'.state) { err_gslb_blackhole = w'.state.err_gslb_blackhole + 1 };
    })
    else if leb_ℤ w'.req.retry_time w'.bal.retry_max
    then in_cluster_balance env algor key i sub w'
    else cross_balance env algor key i w'

unfoldable pub select_and_balance : GslbEnv → World → World × Answer
unfolding get_hash_key sub_cluster_balance balance_in
select_and_balance env w =
    let key = get_hash_key env.rand_key w.bal.hash_conf w.req in
    elim (sub_cluster_balance env.slb.sum64 env.slb.rand_uint32 (some key) w.bal) [
      | no_sub_cluster ↦ fail_with bk_no_sub_cluster (record w {
        state = record (w.state) { err_bk_no_sub_cluster = w.state.err_bk_no_sub_cluster + 1 };
      })
      | missing ↦ (w, panics)
      | selected i ↦ balance_in env (balance_algor w.bal) key i (get_elem? w.bal.sub_clusters i) w
    ]

-- A request with a sticky backend that can be looked up goes there, any other is balanced.
unfoldable pub balance : GslbEnv → World → World × Answer
unfolding look_up_sticky_backend select_and_balance
balance env w =
    if ltb_ℤ (w.bal.retry_max +ℤ w.bal.cross_retry) w.req.retry_time
    then (
      record w {
        state = record (w.state) { err_bk_retry_too_many = w.state.err_bk_retry_too_many + 1 };
      },
      failed bk_retry_too_many,
    )
    else let (req, found) = look_up_sticky_backend w.bal w.req in
      elim found [
        | some (i, j) ↦ (record w { req = req }, chosen i j)
        | none ↦ select_and_balance env w
      ]

-- A backend, or none: an error or a panic.
unfoldable pub pick_in : Env → ℕ → Option SubCluster → BalanceGslb → BalanceGslb × Option (ℕ × ℕ)
unfolding balance_at
pick_in env i none bal = (bal, none)
pick_in env i (some sub) bal =
    let (bal', r) = balance_at env wrr_smooth none i sub bal in
    if is_blackhole sub
    then (bal, none)
    else elim r [ ok j ↦ (bal', some (i, j)) | err e ↦ (bal', none) ]

unfoldable pub pick_backend : Env → BalanceGslb → BalanceGslb × Option (ℕ × ℕ)
unfolding sub_cluster_balance pick_in
pick_backend env bal = elim (sub_cluster_balance env.sum64 env.rand_uint32 none bal) [
  | selected i ↦ pick_in env i (get_elem? bal.sub_clusters i) bal
  | no_sub_cluster ↦ (bal, none)
  | missing ↦ (bal, none)
]
