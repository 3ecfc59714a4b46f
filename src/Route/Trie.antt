-- ===== src/Route/Trie.antt =====
-- bfe_route/trie/trie.go: the trie of host labels, with the wildcard `*` as a last label.
-- The Go map of children is an association list that holds each key once, and a nil interface is
-- none. `Set` changes the trie in place: it returns the new trie, and whether it has succeeded.
pub mod Paths
use bfe.Common.{
  ℕ, ◌≡◌, Bool, true, false, ◌&&◌, not, Option, none, some, List, [], ◌∷◌, Bytes, bytes_eq,
  if◌then◌else◌,
}

mutual
  pub data Trie (V : Type 0) : Type 0 where
    -- the entry, the entry for `*`, and the children
    node : Option V → Option V → Children V → Trie V

  pub data Children (V : Type 0) : Type 0 where
    no_children : Children V
    child : Bytes → Trie V → Children V → Children V

abbrev pub star : Bytes
star = b'*' ∷ []

abbrev pub is_empty : List Bytes → Bool
is_empty [] = true
is_empty (key ∷ path) = false

module _ {V : Type 0} where
  unfoldable pub new_trie : Trie V
  new_trie = node none none no_children

  -- Children[key]
  unfoldable pub find_child : Bytes → Children V → Option (Trie V)
  find_child key no_children = none
  find_child key (child k t cs) = if bytes_eq k key then some t else find_child key cs

  -- Children[key] = res
  unfoldable pub put_child : Bytes → Trie V → Children V → Children V
  put_child key res no_children = child key res no_children
  put_child key res (child k t cs) =
      if bytes_eq k key then child k res cs else child k t (put_child key res cs)

  abbrev pub or_else : Option V → Option V → Option V
  or_else none y = y
  or_else (some x) y = some x

  abbrev pub entry_of : Trie V → Option V
  entry_of (node e s cs) = e

  abbrev pub splat_of : Trie V → Option V
  splat_of (node e s cs) = s

  abbrev pub children_of : Trie V → Children V
  children_of (node e s cs) = cs

  -- What a lookup finds in a child that may be missing.
  abbrev pub through : (Trie V → Option V) → Option (Trie V) → Option V
  through f none = none
  through f (some res) = f res

  unfoldable pub get : List Bytes → Trie V → Option V
  unfolding find_child
  get [] t = entry_of t
  get (key ∷ path) t = or_else (through (get path) (find_child key (children_of t))) (splat_of t)

  -- The child at the key, or a new one.
  abbrev pub or_new : Option (Trie V) → Trie V
  or_new none = new_trie
  or_new (some res) = res

  abbrev pub with_splat : Bool → V → Trie V → Option V
  with_splat is_star value t = if is_star then some value else splat_of t

  unfoldable pub set : List Bytes → V → Trie V → Trie V × Bool
  unfolding find_child put_child new_trie
  set [] value t = (node (some value) (splat_of t) (children_of t), true)
  set (key ∷ path) value t =
      let (res, ok) = set path value (or_new (find_child key (children_of t))) in
      if bytes_eq key star && not (is_empty path) then (t, false) else (
        node (entry_of t) (with_splat (bytes_eq key star) value t)
            (put_child key res (children_of t)),
        ok,
      )
