-- ===== src/Slb/Update.antt =====
-- bfe_balance/bal_slb/bal_rr.go: `Update`, which moves a balancer to a new configuration.
pub mod Count
pub mod Keeps
use bfe.Common.{
  ◌++◌, Option, none, some, List, [], ◌∷◌, map, true, false, Bytes, if◌then◌else◌, map_lookup,
  map_delete, map_assign,
}
use bfe.Backend.{BackendConf, sprintf_addr, set_restart}
use bfe.Slb.Backends.{BackendRr, new_backend_rr, update_weight, match_addr_port}
use bfe.Slb.Backends
use bfe.Slb.Balancer.{BalanceRr, BackendList, addr_info}

-- The map of `confMapMake`, each key once.
abbrev pub ConfMap : Type 0
ConfMap = List (Bytes × BackendConf)

abbrev conf_addr_info : BackendConf → Bytes
conf_addr_info conf = sprintf_addr conf.addr conf.port

unfoldable pub conf_map_fill : List BackendConf → ConfMap → ConfMap
unfolding map_assign
conf_map_fill [] m = m
conf_map_fill (c ∷ cs) m = conf_map_fill cs (map_assign (conf_addr_info c) c m)

unfoldable pub conf_map_make : List BackendConf → ConfMap
unfolding conf_map_fill
conf_map_make conf = conf_map_fill conf []

-- The loop of `Update` over the old backends: what is kept, the entries of the map that are left,
-- and how many were released.
pub record Sweep : Type 0 where
  pub kept : BackendList
  pub left : ConfMap
  pub released : BackendList

-- A backend that is not in the new configuration is told to stop its health check.
unfoldable pub drop_backend : BackendRr → Sweep → Option Sweep
unfolding Backends.release
drop_backend b s = elim (Backends.release b) [
  | none ↦ none
  | some b' ↦ some (record s { released = s.released ++ b' ∷ [] })
]

unfoldable pub sweep_one : BackendRr → Sweep → Option Sweep
unfolding map_lookup map_delete match_addr_port update_weight drop_backend
sweep_one b s = elim (map_lookup (addr_info b) s.left) [
  | some conf ↦
      if match_addr_port conf.addr conf.port b
      then some (record s {
        kept = s.kept ++ update_weight conf.weight b ∷ [];
        left = map_delete (addr_info b) s.left;
      })
      else drop_backend b s
  | none ↦ drop_backend b s
]

unfoldable pub sweep : BackendList → Sweep → Option Sweep
unfolding sweep_one
sweep [] s = some s
sweep (b ∷ bs) s = elim (sweep_one b s) [ none ↦ none | some s' ↦ sweep bs s' ]

abbrev pub restarted_of_conf : Bytes → BackendConf → BackendRr
restarted_of_conf name conf =
    let b = Backends.init name conf new_backend_rr in
    record b { backend = set_restart true b.backend }

-- `order` is the order in which Go ranges over the map. The second part is the released backends.
unfoldable pub update :
    (ConfMap → ConfMap) → List BackendConf → BalanceRr → Option (BalanceRr × BackendList)
unfolding sweep conf_map_make new_backend_rr Backends.init set_restart
update order conf brr =
    elim (sweep brr.backends (record { kept = []; left = conf_map_make conf; released = [] })) [
      | none ↦ none
      | some s ↦ some (
        record brr {
          backends = s.kept ++ map (λ e. restarted_of_conf brr.name e.1) (order s.left);
          sorted = false;
          next = 0;
        },
        s.released,
      )
    ]
