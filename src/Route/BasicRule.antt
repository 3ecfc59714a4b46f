-- ===== src/Route/BasicRule.antt =====
-- bfe_config/bfe_route_conf/route_rule_conf/basic_rule_tree.go: from host and path to a cluster.
-- The radix tree (github.com/armon/go-radix) is a parameter: `R V` with New, Get, Insert, which also
-- returns the old value, and LongestPrefix. Go shares the two path trees of a host through
-- pointers; here they are stored again after an insert. Names are ASCII.
pub mod Wildcard
use bfe.Common.{
  ◌≡◌, ℕ, zero, suc, ◌-◌, ◌==◌, leb, Bool, true, false, ◌&&◌, ◌||◌, not, Option, none, some, List,
  [], ◌∷◌, ◌++◌, Bytes, map, if◌then◌else◌, bytes_eq, length, take, drop,
}
use bfe.Route.Host.{dot, reverse_fqdn_host}

-- BasicRouteRuleFile, with the pointer to its cluster followed.
pub record BasicRouteRuleFile : Type 0 where
  pub hostname : List Bytes
  pub path : List Bytes
  pub cluster_name : Bytes

pub data InsertError : Type 0 where
  hostname_empty path_empty path_duplicated : InsertError

abbrev upper : ℕ → ℕ
upper c = if leb b'a' c && leb c b'z' then c - 32 else c

-- strings.ToUpper
unfoldable pub to_upper : Bytes → Bytes
to_upper = map upper

-- The key of a host name in its tree.
unfoldable pub host_key : Bytes → Bytes
unfolding to_upper reverse_fqdn_host
host_key host = to_upper (reverse_fqdn_host host)

-- strings.Contains(s, ".")
unfoldable pub has_dot : Bytes → Bool
has_dot [] = false
has_dot (c ∷ cs) = c == dot || has_dot cs

-- The last byte is there and is c.
unfoldable pub ends_with : ℕ → Bytes → Bool
ends_with c [] = false
ends_with c (d ∷ []) = d == c
ends_with c (d ∷ e ∷ ds) = ends_with c (e ∷ ds)

unfoldable pub drop_last : Bytes → Bytes
drop_last [] = []
drop_last (d ∷ []) = []
drop_last (d ∷ e ∷ ds) = d ∷ drop_last (e ∷ ds)

abbrev is_nil : Bytes → Bool
is_nil [] = true
is_nil (c ∷ cs) = false

abbrev slash : ℕ
slash = b'/'

-- A slash at the end of a text that is not empty, unless there is one.
unfoldable pub with_slash : Bytes → Bytes
unfolding ends_with
with_slash s = if is_nil s || ends_with slash s then s else s ++ slash ∷ []

abbrev pub or_star : List Bytes → List Bytes
or_star [] = (b'*' ∷ []) ∷ []
or_star (x ∷ xs) = x ∷ xs

module _ {V : Type 0} where
  abbrev found_at : Bytes → Option V → Option (Bytes × V) → Option (Bytes × V)
  found_at k none shorter = shorter
  found_at k (some v) shorter = some (k, v)

  -- The longest prefix of a key, of at most n bytes, that has a value, and its value.
  abbrev pub search_prefixes : (Bytes → Option V) → Bytes → ℕ → Option (Bytes × V)
  search_prefixes look s zero = found_at [] (look []) none
  search_prefixes look s (suc n) =
      found_at (take (suc n) s) (look (take (suc n) s)) (search_prefixes look s n)

-- github.com/armon/go-radix: what the code calls, and what it documents of LongestPrefix.
pub record RadixTree (R : Type 0 → Type 0) : Type 1 where
  pub new : {V : Type 0} → R V
  pub look : {V : Type 0} → Bytes → R V → Option V
  pub put : {V : Type 0} → Bytes → V → R V → R V × Option V
  pub longest_prefix : {V : Type 0} → Bytes → R V → Option (Bytes × V)
  pub longest_prefix_law :
      {V : Type 0}
      → (s : Bytes) (t : R V) → longest_prefix s t ≡ search_prefixes (λ k. look k t) s (length s)

pub record PathTrees (R : Type 0 → Type 0) : Type 0 where
  pub exact : R Bytes
  pub wildcard : R Bytes

pub record HostTrees (R : Type 0 → Type 0) : Type 0 where
  pub exact : R (PathTrees R)
  pub wildcard : R (PathTrees R)

module _ {R : Type 0 → Type 0} (radix : RadixTree R) where
  unfoldable pub new_path_trees : PathTrees R
  new_path_trees = record { exact = radix.new; wildcard = radix.new }

  -- NewBasicRouteRuleTree
  unfoldable pub new_host_trees : HostTrees R
  new_host_trees = record { exact = radix.new; wildcard = radix.new }

  abbrev pub duplicate : Option Bytes → Option InsertError
  duplicate none = none
  duplicate (some old) = some path_duplicated

  -- A duplicated path is an error, but its cluster is replaced before.
  unfoldable pub path_insert : Bytes → Bytes → PathTrees R → PathTrees R × Option InsertError
  unfolding ends_with drop_last with_slash
  path_insert path cluster pt =
      let (wild, old_wild) = radix.put (with_slash (drop_last path)) cluster pt.wildcard in
      let (ex, old) = radix.put path cluster pt.exact in
      if is_nil path
      then (pt, some path_empty)
      else if ends_with b'*' path
      then (record pt { wildcard = wild }, duplicate old_wild)
      else (record pt { exact = ex }, duplicate old)

  unfoldable pub path_get : Bytes → PathTrees R → Option Bytes
  unfolding with_slash
  path_get path pt = elim (radix.look path pt.exact) [
    | some cluster ↦ some cluster
    | none ↦ elim (radix.longest_prefix (with_slash path) pt.wildcard) [
      | none ↦ none
      | some (prefix, cluster) ↦ some cluster
    ]
  ]

  -- The paths of a rule, up to the first error.
  unfoldable pub insert_paths : List Bytes → Bytes → PathTrees R → PathTrees R × Option InsertError
  unfolding path_insert
  insert_paths [] cluster pt = (pt, none)
  insert_paths (path ∷ paths) cluster pt =
      let (pt', failed) = path_insert path cluster pt in
      let rest = insert_paths paths cluster pt' in
      elim failed [ some e ↦ (pt', some e) | none ↦ rest ]

  abbrev or_new : Option (PathTrees R) → PathTrees R
  or_new none = new_path_trees
  or_new (some pt) = pt

  -- The paths of a rule, into the path trees at a key, which are made if there are none.
  unfoldable pub insert_at :
      Bytes → List Bytes → Bytes → R (PathTrees R) → R (PathTrees R) × Option InsertError
  unfolding insert_paths new_path_trees
  insert_at key paths cluster t =
      let (pt, failed) = insert_paths paths cluster (or_new (radix.look key t)) in
      ((radix.put key pt t).0, failed)

  unfoldable pub host_insert :
      Bytes → List Bytes → Bytes → HostTrees R → HostTrees R × Option InsertError
  unfolding insert_at host_key
  host_insert [] paths cluster ht = (ht, some hostname_empty)
  host_insert (c ∷ host) paths cluster ht =
      let (wild, failed_wild) = insert_at (host_key host) paths cluster ht.wildcard in
      let (ex, failed) = insert_at (host_key (c ∷ host)) paths cluster ht.exact in
      if c == b'*'
      then (record ht { wildcard = wild }, failed_wild)
      else (record ht { exact = ex }, failed)

  unfoldable pub insert_hosts :
      List Bytes → List Bytes → Bytes → HostTrees R → HostTrees R × Option InsertError
  unfolding host_insert
  insert_hosts [] paths cluster ht = (ht, none)
  insert_hosts (host ∷ hosts) paths cluster ht =
      let (ht', failed) = host_insert host paths cluster ht in
      let rest = insert_hosts hosts paths cluster ht' in
      elim failed [ some e ↦ (ht', some e) | none ↦ rest ]

  unfoldable pub insert : BasicRouteRuleFile → HostTrees R → HostTrees R × Option InsertError
  unfolding insert_hosts
  insert rule ht = insert_hosts (or_star rule.hostname) (or_star rule.path) rule.cluster_name ht

  -- What is left of the key after the prefix that matched.
  abbrev pub check_prefix :
      Bytes → R (PathTrees R) → Option (Bytes × PathTrees R) → Option (PathTrees R)
  check_prefix key t none = none
  check_prefix key t (some (prefix, pt)) =
      if has_dot (drop (length prefix) key) then radix.look [] t else some pt

  abbrev pub exact_or : Option (PathTrees R) → Option (PathTrees R) → Option (PathTrees R)
  exact_or none wild = wild
  exact_or (some pt) wild = some pt

  abbrev pub get_key : Bytes → HostTrees R → Option (PathTrees R)
  get_key key ht =
      exact_or (radix.look key ht.exact)
        (check_prefix key ht.wildcard (radix.longest_prefix key ht.wildcard))

  unfoldable pub host_get : Bytes → HostTrees R → Option (PathTrees R)
  unfolding host_key has_dot
  host_get host ht = get_key (host_key host) ht

  unfoldable pub get : Bytes → Bytes → HostTrees R → Option Bytes
  unfolding host_get path_get
  get host path ht = elim (host_get host ht) [ none ↦ none | some pt ↦ path_get path pt ]
