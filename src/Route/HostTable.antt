-- ===== src/Route/HostTable.antt =====
-- bfe_route/host_table.go: a request's product by its host, its virtual IP or the default, and its
-- cluster by the basic and then the advanced rules. Conditions are parameters: `Match` is a
-- function of the request. A nil map answers as an empty one.
pub mod Hosts
use bfe.Common.{
  ℕ, ◌≡◌, Bool, true, false, ◌&&◌, not, Option, none, some, List, [], ◌∷◌, Bytes, codes, bytes_eq,
  if◌then◌else◌, map_lookup,
}
use bfe.Route.Trie.{Trie, get, set, new_trie}
use bfe.Route.Host.{to_lower, hostname_strip, host_path}

pub data RouteError : Type 0 where
  no_product no_product_rule no_match_rule : RouteError

pub record Route : Type 0 where
  pub product : Bytes
  pub tag : Bytes

-- req.Route, as far as the tables write it.
pub record RequestRoute : Type 0 where
  pub error : Option RouteError
  pub host_tag : Bytes
  pub product : Bytes
  pub cluster_name : Bytes

-- `path` is empty where the URL is nil; `vip` is its text. `attributes` stands for all else that a
-- condition may read.
pub record Request (A : Type 0) : Type 0 where
  pub host : Bytes
  pub vip : Option Bytes
  pub path : Bytes
  pub attributes : A
  pub route : RequestRoute

-- host_rule_conf.HostConf; `host_map` is in the order in which Go ranges over it.
pub record HostConf : Type 0 where
  pub version : Bytes
  pub default_product : Bytes
  pub host_map : List (Bytes × Bytes)
  pub host_tag_map : List (Bytes × Bytes)

pub record VipConf : Type 0 where
  pub version : Bytes
  pub vip_map : List (Bytes × Bytes)

module _ (A : Type 0) where
  pub record AdvancedRouteRule : Type 0 where
    pub cond : Request A → Bool
    pub cluster_name : Bytes

  -- `basic_rules` is the lookup of a product's BasicRouteRuleTree, by host and path.
  pub record RouteTableConf : Type 0 where
    pub version : Bytes
    pub basic_rules : List (Bytes × (Bytes → Bytes → Option Bytes))
    pub advanced_rules : List (Bytes × List AdvancedRouteRule)

  pub record HostTable : Type 0 where
    pub host_tag_version : Bytes
    pub vip_version : Bytes
    pub product_route_version : Bytes
    pub host_table : List (Bytes × Bytes)
    pub host_tag_table : List (Bytes × Bytes)
    pub vip_table : List (Bytes × Bytes)
    pub default_product : Bytes
    pub host_trie : Option (Trie Route)
    pub basic_route_tree : List (Bytes × (Bytes → Bytes → Option Bytes))
    pub advanced_route_table : List (Bytes × List AdvancedRouteRule)

-- The tag's product, or the empty text.
abbrev pub product_of : HostConf → Bytes → Bytes
product_of conf tag = elim (map_lookup tag conf.host_tag_map) [ none ↦ [] | some product ↦ product ]

-- The error of `Set` is dropped.
unfoldable pub build_hosts : HostConf → List (Bytes × Bytes) → Trie Route → Trie Route
unfolding set host_path to_lower map_lookup
build_hosts conf [] t = t
build_hosts conf ((host, tag) ∷ hosts) t =
    build_hosts conf hosts
      (set (host_path (to_lower host)) (record { product = product_of conf tag; tag = tag }) t).0

unfoldable pub build_host_route : HostConf → Trie Route
unfolding build_hosts new_trie
build_host_route conf = build_hosts conf conf.host_map new_trie

module _ {A : Type 0} where
  pub new_host_table : HostTable A
  new_host_table = record {
    host_tag_version = [];
    vip_version = [];
    product_route_version = [];
    host_table = [];
    host_tag_table = [];
    vip_table = [];
    default_product = [];
    host_trie = none;
    basic_route_tree = [];
    advanced_route_table = [];
  }

  unfoldable pub update_host_table : HostConf → HostTable A → HostTable A
  unfolding build_host_route
  update_host_table conf t = record t {
    host_tag_version = conf.version;
    host_table = conf.host_map;
    host_tag_table = conf.host_tag_map;
    default_product = conf.default_product;
    host_trie = some (build_host_route conf);
  }

  unfoldable pub update_vip_table : VipConf → HostTable A → HostTable A
  update_vip_table conf t = record t { vip_version = conf.version; vip_table = conf.vip_map }

  unfoldable pub update_route_table : RouteTableConf A → HostTable A → HostTable A
  update_route_table conf t = record t {
    product_route_version = conf.version;
    basic_route_tree = conf.basic_rules;
    advanced_route_table = conf.advanced_rules;
  }

  unfoldable pub update : HostConf → VipConf → RouteTableConf A → HostTable A → HostTable A
  unfolding update_host_table update_vip_table update_route_table
  update host_conf vip_conf route_conf t =
      update_route_table route_conf (update_vip_table vip_conf (update_host_table host_conf t))

  -- `none` is ErrNoProduct, the only error.
  unfoldable pub find_host_route : Bytes → HostTable A → Option Route
  unfolding get host_path to_lower hostname_strip
  find_host_route host t = elim t.host_trie [
    | none ↦ none
    | some trie ↦ get (host_path (hostname_strip (to_lower host))) trie
  ]

  unfoldable pub find_vip_route : Bytes → HostTable A → Option Route
  unfolding map_lookup
  find_vip_route vip t = elim (map_lookup vip t.vip_table) [
    | none ↦ none
    | some product ↦ some (record { product = product; tag = [] })
  ]

  abbrev pub or_vip : Option Route → Option Bytes → HostTable A → Option Route
  or_vip (some r) vip t = some r
  or_vip none none t = none
  or_vip none (some vip) t = find_vip_route vip t

  abbrev pub or_default : Option Route → HostTable A → Option Route
  or_default (some r) t = some r
  or_default none t =
      if bytes_eq t.default_product []
      then none
      else some (record { product = t.default_product; tag = [] })

  -- The request's host tag, product and error, from what was found.
  abbrev pub with_route : Option Route → Request A → Request A
  with_route none req = record req {
    route = record (req.route) { host_tag = []; product = []; error = some no_product };
  }
  with_route (some r) req = record req {
    route = record (req.route) { host_tag = r.tag; product = r.product; error = none };
  }

  unfoldable pub look_up_host_tag_and_product :
      HostTable A → Request A → Request A × Option RouteError
  unfolding find_host_route find_vip_route
  look_up_host_tag_and_product t req =
      let req' = with_route (or_default (or_vip (find_host_route req.host t) req.vip t) t) req in
      (req', req'.route.error)

  -- The cluster of the first rule that matches, or the empty text.
  unfoldable pub first_match : Request A → List (AdvancedRouteRule A) → Bytes
  first_match req [] = []
  first_match req (rule ∷ rules) =
      let rest = first_match req rules in if rule.cond req then rule.cluster_name else rest

  -- What the basic rules say: a cluster, or nothing, also where it is the advanced mode.
  unfoldable pub basic_cluster : HostTable A → Request A → Option Bytes
  unfolding map_lookup hostname_strip
  basic_cluster t req = elim (map_lookup req.route.product t.basic_route_tree) [
    | none ↦ none
    | some basic_rules ↦ elim (basic_rules (hostname_strip req.host) req.path) [
      | none ↦ none
      | some cluster ↦ if bytes_eq cluster (codes "ADVANCED_MODE") then none else some cluster
    ]
  ]

  abbrev cluster_error : RouteError → Request A → Request A × Option RouteError
  cluster_error e req =
      (record req { route = record (req.route) { cluster_name = []; error = some e } }, some e)

  abbrev with_cluster : Bytes → Request A → Request A × Option RouteError
  with_cluster cluster req =
      (record req { route = record (req.route) { cluster_name = cluster } }, none)

  unfoldable pub look_up_advanced : HostTable A → Request A → Request A × Option RouteError
  unfolding map_lookup first_match
  look_up_advanced t req = elim (map_lookup req.route.product t.advanced_route_table) [
    | none ↦ cluster_error no_product_rule req
    | some rules ↦
        let cluster = first_match req rules in
        if bytes_eq cluster [] then cluster_error no_match_rule req else with_cluster cluster req
  ]

  unfoldable pub look_up_cluster : HostTable A → Request A → Request A × Option RouteError
  unfolding basic_cluster look_up_advanced
  look_up_cluster t req = elim (basic_cluster t req) [
    | some cluster ↦ with_cluster cluster req
    | none ↦ look_up_advanced t req
  ]

  -- The request after the call, and the route that it returns.
  unfoldable pub look_up : HostTable A → Request A → Request A × RequestRoute
  unfolding look_up_host_tag_and_product look_up_cluster
  look_up t req =
      let (req1, no_host) = look_up_host_tag_and_product t req in
      let (req2, no_cluster) = look_up_cluster t req1 in
      let found : RequestRoute = record {
        error = none;
        host_tag = req1.route.host_tag;
        product = req1.route.product;
        cluster_name = [];
      } in
      elim no_host [
        | some e ↦ (req1, record { error = some e; host_tag = []; product = []; cluster_name = [] })
        | none ↦ elim no_cluster [
          | some e ↦ (req2, record found { error = some e })
          | none ↦ (req2, record found { cluster_name = req2.route.cluster_name })
        ]
      ]
