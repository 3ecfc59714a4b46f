-- ===== src/Route/Examples.antt =====
-- Runs of the host lookup, and the theorems about it at concrete inputs.
use bfe.Common.{
  false, none, ℕ, ◌≡◌, refl, true, some, List, [], ◌∷◌, ◌++◌, Bytes, codes, bytes_eq, length, take,
  drop, map_lookup, map_assign, ◌≤◌, arith, if◌then◌else◌,
}
use bfe.Route.Trie.{Trie, get, set, new_trie, or_else, star}
use bfe.Route.Trie.Paths.{
  paths_eq, is_valid, exact, splat_at, longest_of, get-exact_or_longest, set_changes,
}
use bfe.Route.Host.{to_lower, hostname_strip, host_path}
use bfe.Route.HostTable.{HostConf, new_host_table, update_host_table, find_host_route}
use bfe.Route.HostTable.Hosts.{AllValid, configured, find_host_route-updated}
use bfe.Route.BasicRule.{
  RadixTree, search_prefixes, PathTrees, HostTrees, host_key, has_dot, host_get, insert,
  new_host_trees,
}
use bfe.Route.BasicRule as BasicRoute
use bfe.Route.BasicRule.Wildcard.{host_get-wildcard}

abbrev com_foo : List Bytes
com_foo = codes "moc" ∷ codes "oof" ∷ []

abbrev wild : List Bytes
wild = codes "moc" ∷ star ∷ []

abbrev trie : Trie ℕ
trie = (set wild 1 (set com_foo 2 new_trie).0).0

get-exact_or_longest_example :
    get (codes "moc" ∷ codes "rab" ∷ []) trie
    ≡ or_else
        (exact (codes "moc" ∷ codes "rab" ∷ []) trie)
        (longest_of (λ q. splat_at q trie) (codes "moc" ∷ codes "rab" ∷ []))
get-exact_or_longest_example = get-exact_or_longest (codes "moc" ∷ codes "rab" ∷ []) trie

wildcard_found : get (codes "moc" ∷ codes "rab" ∷ []) trie ≡ some 1
unfolding get set new_trie bytes_eq
wildcard_found = refl

exact_found : get com_foo trie ≡ some 2
unfolding get set new_trie bytes_eq
exact_found = refl

wild_valid : is_valid wild ≡ true
unfolding is_valid bytes_eq
wild_valid = refl

set_changes_example :
    ((q : List Bytes)
      → exact q (set wild 3 trie).0 ≡ (if paths_eq wild q then some 3 else exact q trie))
    × ((q : List Bytes)
        → splat_at q (set wild 3 trie).0
          ≡ (if paths_eq wild (q ++ star ∷ []) then some 3 else splat_at q trie))
set_changes_example = set_changes wild 3 trie wild_valid

abbrev conf : HostConf
conf = record {
  version = [];
  default_product = [];
  host_map = (codes "*.Foo.com", codes "t") ∷ (codes "www.foo.com", codes "u") ∷ [];
  host_tag_map = (codes "t", codes "p") ∷ [];
}

hosts-AllValid : AllValid conf.host_map
unfolding is_valid host_path to_lower bytes_eq
hosts-AllValid = (refl, (refl, tt))

find_host_route-updated_example :
    let p = host_path (hostname_strip (to_lower (codes "A.foo.com:80"))) in
    find_host_route (codes "A.foo.com:80") (update_host_table conf (new_host_table {A = Unit}))
    ≡ or_else
        (configured conf conf.host_map p)
        (longest_of (λ q. configured conf conf.host_map (q ++ star ∷ [])) p)
find_host_route-updated_example =
    find_host_route-updated conf new_host_table (codes "A.foo.com:80") hosts-AllValid

host_found :
    find_host_route (codes "A.foo.com:80") (update_host_table conf (new_host_table {A = Unit}))
    ≡ some (record { product = codes "p"; tag = codes "t" })
unfolding find_host_route update_host_table bytes_eq
host_found = refl

-- A radix tree as an association list.
abbrev Table : Type 0 → Type 0
Table V = List (Bytes × V)

abbrev radix : RadixTree Table
radix = record {
  new = [];
  look = map_lookup;
  put = λ k v t. (map_assign k v t, map_lookup k t);
  longest_prefix = λ s t. search_prefixes (λ k. map_lookup k t) s (length s);
  longest_prefix_law = λ s t. refl;
}

abbrev path_trees : PathTrees Table
path_trees = record { exact = []; wildcard = (codes "/", codes "cluster") ∷ [] }

-- The wildcard *.foo.com.
abbrev host_trees : HostTrees Table
host_trees = record { exact = []; wildcard = (codes "MOC.OOF.", path_trees) ∷ [] }

b_foo : host_key (codes "b.foo.com") ≡ codes "MOC.OOF.B"
unfolding host_key
b_foo = refl

long_enough : 8 ≤ length (host_key (codes "b.foo.com"))
long_enough = rw b_foo (omega arith)

prefix_there :
    map_lookup (take 8 (host_key (codes "b.foo.com"))) host_trees.wildcard ≡ some path_trees
unfolding map_lookup bytes_eq host_key
prefix_there = refl

one_label : has_dot (drop 8 (host_key (codes "b.foo.com"))) ≡ false
unfolding has_dot host_key
one_label = refl

none_exact : map_lookup (host_key (codes "b.foo.com")) host_trees.exact ≡ none
unfolding map_lookup
none_exact = refl

host_get-wildcard_example :
    (k : ℕ) × (found : PathTrees Table) × (host_get radix (codes "b.foo.com") host_trees
      ≡ some found)
    × (map_lookup (take k (host_key (codes "b.foo.com"))) host_trees.wildcard ≡ some found)
    × (has_dot (drop k (host_key (codes "b.foo.com"))) ≡ false)
    × (8 ≤ k)
host_get-wildcard_example =
    host_get-wildcard radix (codes "b.foo.com") host_trees 8 path_trees none_exact long_enough
      prefix_there one_label

-- Inserted and found again, under a name in another case and with a longer path.
abbrev inserted : HostTrees Table
inserted =
    (insert radix
      (record {
        hostname = codes "*.foo.com" ∷ [];
        path = codes "/x*" ∷ [];
        cluster_name = codes "c";
      })
      (new_host_trees radix)).0

rule_found : BasicRoute.get radix (codes "B.Foo.com") (codes "/x/y") inserted ≡ some (codes "c")
unfolding BasicRoute.get insert new_host_trees map_lookup map_assign bytes_eq
rule_found = refl
