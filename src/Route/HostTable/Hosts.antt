-- ===== src/Route/HostTable/Hosts.antt =====
-- The product of a host, against the configuration that the table was updated with.
use mathlib.Core.Path.{ap₂}
use bfe.Common.{
  ◌≡◌, refl, ap, ◌∙◌, Bool, true, false, Option, none, some, List, [], ◌∷◌, ◌++◌, Bytes,
  if◌then◌else◌,
}
use bfe.Route.Trie.{Trie, or_else, star, set, new_trie}
use bfe.Route.Trie.Paths.{
  paths_eq, is_valid, exact, splat_at, longest_of, get-exact_or_longest, set_changes,
  exact-new_trie, splat_at-new_trie,
}
use bfe.Route.Host.{to_lower, hostname_strip, host_path}
use bfe.Route.HostTable.{
  Route, HostConf, HostTable, product_of, build_hosts, build_host_route, update_host_table,
  find_host_route,
}

-- Every configured host has its wildcard, if any, as its first label only.
abbrev pub AllValid : List (Bytes × Bytes) → Type 0
AllValid [] = Unit
AllValid ((host, tag) ∷ hosts) = (is_valid (host_path (to_lower host)) ≡ true) × AllValid hosts

abbrev route_of : HostConf → Bytes → Route
route_of conf tag = record { product = product_of conf tag; tag = tag }

-- The route that the configuration has for a path; the last one counts, if there are several.
abbrev pub configured : HostConf → List (Bytes × Bytes) → List Bytes → Option Route
configured conf [] p = none
configured conf ((host, tag) ∷ hosts) p =
    or_else (configured conf hosts p)
      (if paths_eq (host_path (to_lower host)) p then some (route_of conf tag) else none)

or_else-if :
    (x y : Option Route) (b : Bool) (r : Route)
    → or_else x (if b then some r else y) ≡ or_else (or_else x (if b then some r else none)) y
or_else-if none y true r = refl
or_else-if none y false r = refl
or_else-if (some x) y b r = refl

or_else-none : (x : Option Route) → or_else x none ≡ x
or_else-none none = refl
or_else-none (some x) = refl

exact-build_hosts :
    (conf : HostConf) (hosts : List (Bytes × Bytes)) (t : Trie Route) (p : List Bytes)
    → AllValid hosts
    → exact p (build_hosts conf hosts t) ≡ or_else (configured conf hosts p) (exact p t)
unfolding build_hosts
exact-build_hosts conf [] t p v = refl
exact-build_hosts conf ((host, tag) ∷ hosts) t p v =
    let q = host_path (to_lower host) in
    exact-build_hosts conf hosts (set q (route_of conf tag) t).0 p v.1
    ∙ ap (or_else (configured conf hosts p)) ((set_changes q (route_of conf tag) t v.0).0 p)
    ∙ or_else-if (configured conf hosts p) (exact p t) (paths_eq q p) (route_of conf tag)

splat_at-build_hosts :
    (conf : HostConf) (hosts : List (Bytes × Bytes)) (t : Trie Route) (p : List Bytes)
    → AllValid hosts
    → splat_at p (build_hosts conf hosts t)
      ≡ or_else (configured conf hosts (p ++ star ∷ [])) (splat_at p t)
unfolding build_hosts
splat_at-build_hosts conf [] t p v = refl
splat_at-build_hosts conf ((host, tag) ∷ hosts) t p v =
    let q = host_path (to_lower host) in
    let w = p ++ star ∷ [] in
    splat_at-build_hosts conf hosts (set q (route_of conf tag) t).0 p v.1
    ∙ ap (or_else (configured conf hosts w)) ((set_changes q (route_of conf tag) t v.0).1 p)
    ∙ or_else-if (configured conf hosts w) (splat_at p t) (paths_eq q w) (route_of conf tag)

longest_of-cong :
    (f g : List Bytes → Option Route) (p : List Bytes)
    → ((q : List Bytes) → f q ≡ g q)
    → longest_of f p ≡ longest_of g p
longest_of-cong f g [] h = refl
longest_of-cong f g (k ∷ p) h =
    ap₂ or_else (longest_of-cong (λ q. f (k ∷ q)) (λ q. g (k ∷ q)) p (λ q. h (k ∷ q))) (h [])

-- After an update with a configuration in which a wildcard is the first label of its host only, a host
-- gets the route that is configured for its very name, without regard to
-- case and without a port; if there is none, that of the wildcard that covers it with the most
-- labels; and otherwise none.
pub find_host_route-updated :
    {A : Type 0} (conf : HostConf) (t : HostTable A) (host : Bytes)
    → AllValid conf.host_map
    → let p = host_path (hostname_strip (to_lower host)) in
      find_host_route host (update_host_table conf t)
      ≡ or_else
          (configured conf conf.host_map p)
          (longest_of (λ q. configured conf conf.host_map (q ++ star ∷ [])) p)
unfolding find_host_route update_host_table build_host_route
find_host_route-updated conf t host v =
    let p = host_path (hostname_strip (to_lower host)) in
    get-exact_or_longest p (build_host_route conf)
    ∙ ap₂ or_else
        (exact-build_hosts conf conf.host_map new_trie p v
          ∙ ap (or_else (configured conf conf.host_map p)) (exact-new_trie p)
          ∙ or_else-none _)
        (longest_of-cong _ _ p λ q.
          splat_at-build_hosts conf conf.host_map new_trie q v
          ∙ ap (or_else (configured conf conf.host_map (q ++ star ∷ []))) (splat_at-new_trie q)
          ∙ or_else-none _)
