-- ===== src/Gslb/Reload.antt =====
-- bal_gslb.go, `Reload`, `BackendInit`, `BackendReload` and `Release`.
-- `none` is the panic of a second `Close` of a backend.
use bfe.Common.{
  ℕ, zero, suc, ◌+◌, Bool, true, false, Option, none, some, List, [], ◌∷◌, ◌++◌, Bytes,
  if◌then◌else◌, ◌==◌, sort_by, map_lookup, is_some,
}
use bfe.Common.Int.{pos, eqb_ℤ}
use bfe.Backend.{BackendConf}
use bfe.Slb.Update.{ConfMap}
use bfe.Gslb.{SubCluster, BalanceGslb, new_sub_cluster, release}
use bfe.Gslb
use bfe.Gslb.Weights.{
  GslbClusterConf, Outcome, done, total_weight_zero, sub_name, new_of_conf, count_weights,
}

-- The loop over the old sub-clusters. The objects are shared with the old list, so that it changes
-- with them: `olds` is that list, and `kept` the part of it that goes into the new one.
pub record Kept : Type 0 where
  pub kept : List SubCluster
  pub olds : List SubCluster

abbrev keep : SubCluster → Kept → Kept
keep sub r = record { kept = sub ∷ r.kept; olds = sub ∷ r.olds }

unfoldable pub keep_loop : GslbClusterConf → List SubCluster → Option Kept
unfolding map_lookup release
keep_loop conf [] = some (record { kept = []; olds = [] })
keep_loop conf (s ∷ ss) =
    let rest = keep_loop conf ss in
    elim (map_lookup s.name conf) [
      | some weight ↦ elim rest [
        | none ↦ none
        | some r ↦ some (keep (record s { weight = weight }) r)
      ]
      | none ↦ elim (release s) [
        | none ↦ none
        | some s' ↦ elim rest [ none ↦ none | some r ↦ some (record r { olds = s' ∷ r.olds }) ]
      ]
    ]

-- subExist[name]
unfoldable pub sub_exist : Bytes → List SubCluster → Bool
sub_exist name [] = false
sub_exist name (s ∷ ss) = if bfe.Common.bytes_eq s.name name then true else sub_exist name ss

unfoldable pub new_loop : List SubCluster → GslbClusterConf → List SubCluster
unfolding sub_exist new_sub_cluster
new_loop olds [] = []
new_loop olds ((name, weight) ∷ conf) =
    let rest = new_loop olds conf in
    if sub_exist name olds then rest else new_of_conf (name, weight) ∷ rest

-- What follows the loops, on the new list. `avail` keeps its value unless one is left.
unfoldable pub adopt : List SubCluster → List SubCluster → BalanceGslb → BalanceGslb × Outcome
unfolding count_weights
adopt olds subs bal =
    let w = count_weights 0 subs (record { total = pos 0; available = 0; last = 0 }) in
    if eqb_ℤ w.total (pos 0) then (record bal { sub_clusters = olds }, total_weight_zero) else (
      record bal {
        sub_clusters = subs;
        total_weight = w.total;
        single = w.available == 1;
        avail = if w.available == 1 then w.last else bal.avail;
      },
      done,
    )

unfoldable pub reload : GslbClusterConf → BalanceGslb → Option (BalanceGslb × Outcome)
unfolding keep_loop new_loop sort_by adopt
reload conf bal = elim (keep_loop conf bal.sub_clusters) [
  | none ↦ none
  | some r ↦ some (adopt r.olds (sort_by sub_name (r.kept ++ new_loop bal.sub_clusters conf)) bal)
]

-- A sub-cluster that the table does not have gets no backends.
abbrev backends_of : List (Bytes × List BackendConf) → SubCluster → List BackendConf
backends_of conf sub = elim (map_lookup sub.name conf) [ none ↦ [] | some backends ↦ backends ]

unfoldable pub backend_init_loop :
    List (Bytes × List BackendConf) → List SubCluster → List SubCluster
unfolding map_lookup Gslb.init
backend_init_loop conf [] = []
backend_init_loop conf (s ∷ ss) = Gslb.init (backends_of conf s) s ∷ backend_init_loop conf ss

unfoldable pub backend_init : List (Bytes × List BackendConf) → BalanceGslb → BalanceGslb
unfolding backend_init_loop
backend_init conf bal = record bal { sub_clusters = backend_init_loop conf bal.sub_clusters }

unfoldable pub backend_reload_loop :
    (ConfMap → ConfMap)
    → List (Bytes × List BackendConf)
    → List SubCluster
    → Option (List SubCluster)
unfolding map_lookup Gslb.update
backend_reload_loop order conf [] = some []
backend_reload_loop order conf (s ∷ ss) =
    let rest = backend_reload_loop order conf ss in
    elim (Gslb.update order (backends_of conf s) s) [
      | none ↦ none
      | some s' ↦ elim rest [ none ↦ none | some ss' ↦ some (s' ∷ ss') ]
    ]

unfoldable pub backend_reload :
    (ConfMap → ConfMap) → List (Bytes × List BackendConf) → BalanceGslb → Option BalanceGslb
unfolding backend_reload_loop
backend_reload order conf bal = elim (backend_reload_loop order conf bal.sub_clusters) [
  | none ↦ none
  | some subs ↦ some (record bal { sub_clusters = subs })
]

unfoldable pub release_loop : List SubCluster → Option (List SubCluster)
unfolding release
release_loop [] = some []
release_loop (s ∷ ss) =
    let rest = release_loop ss in
    elim (release s) [
      | none ↦ none
      | some s' ↦ elim rest [ none ↦ none | some ss' ↦ some (s' ∷ ss') ]
    ]

-- `closeEPP` at the end drops the breaker.
unfoldable pub release_gslb : BalanceGslb → Option BalanceGslb
unfolding release_loop
release_gslb bal = elim (release_loop bal.sub_clusters) [
  | none ↦ none
  | some subs ↦ some (record bal { sub_clusters = subs; epp_breaker = none })
]
