-- ===== src/Route/Trie/Paths.antt =====
-- What the trie of host labels promises: the entry of the very path, or else that of the longest
-- wildcard that covers it.
use mathlib.Core.Path.{subst}
use bfe.Common.{
  ◌≡◌, refl, sym, ap, ◌∙◌, inl, inr, Bool, true, false, ◌&&◌, Option, none, some, List, [], ◌∷◌,
  ◌++◌, Bytes, bytes_eq, bytes_eq→eq, bytes_eq_refl, if◌then◌else◌, Bool-cases,
}
use bfe.Route.Trie.{
  Trie, node, Children, no_children, child, star, new_trie, find_child, put_child, or_else,
  entry_of, splat_of, children_of, get, is_empty, through, or_new, with_splat, set,
}

abbrev pub paths_eq : List Bytes → List Bytes → Bool
paths_eq [] [] = true
paths_eq [] (k ∷ q) = false
paths_eq (j ∷ p) [] = false
paths_eq (j ∷ p) (k ∷ q) = bytes_eq j k && paths_eq p q

-- A wildcard may only end a path.
unfoldable pub is_valid : List Bytes → Bool
is_valid [] = true
is_valid (k ∷ p) = if bytes_eq k star then is_empty p else is_valid p

module _ {V : Type 0} where
  -- The entry at exactly this path, and the wildcard entry at exactly this path.
  pub exact : List Bytes → Trie V → Option V
  exact [] t = entry_of t
  exact (k ∷ p) t = through (exact p) (find_child k (children_of t))

  pub splat_at : List Bytes → Trie V → Option V
  splat_at [] t = splat_of t
  splat_at (k ∷ p) t = through (splat_at p) (find_child k (children_of t))

  -- Of the values at the proper prefixes of a path, that of the longest one that has a value.
  abbrev pub longest_of : (List Bytes → Option V) → List Bytes → Option V
  longest_of f [] = none
  longest_of f (k ∷ p) = or_else (longest_of (λ q. f (k ∷ q)) p) (f [])

  longest_splat : List Bytes → Trie V → Option V
  longest_splat [] t = none
  longest_splat (k ∷ p) t =
      or_else (through (longest_splat p) (find_child k (children_of t))) (splat_of t)

  or_else_assoc : (x y z : Option V) → or_else (or_else x y) z ≡ or_else x (or_else y z)
  or_else_assoc none y z = refl
  or_else_assoc (some x) y z = refl

  or_else-none : (x : Option V) → x ≡ or_else x none
  or_else-none none = refl
  or_else-none (some x) = refl

  or_else-through :
      (f g h : Trie V → Option V) (s : Option V) (o : Option (Trie V))
      → ((c : Trie V) → f c ≡ or_else (g c) (h c))
      → or_else (through f o) s ≡ or_else (through g o) (or_else (through h o) s)
  or_else-through f g h s none e = refl
  or_else-through f g h s (some c) e = ap (λ x. or_else x s) (e c) ∙ or_else_assoc (g c) (h c) s

  longest_splat-none : (p : List Bytes) → longest_of (λ q. none) p ≡ none
  longest_splat-none [] = refl
  longest_splat-none (k ∷ p) = ap (λ x. or_else x none) (longest_splat-none p)

  longest_splat-through :
      (p : List Bytes) (o : Option (Trie V))
      → ((c : Trie V) → longest_splat p c ≡ longest_of (λ q. splat_at q c) p)
      → through (longest_splat p) o ≡ longest_of (λ q. through (splat_at q) o) p
  longest_splat-through p none h = sym (longest_splat-none p)
  longest_splat-through p (some c) h = h c

  longest_splat-longest_of :
      (p : List Bytes) (t : Trie V) → longest_splat p t ≡ longest_of (λ q. splat_at q t) p
  unfolding longest_splat splat_at
  longest_splat-longest_of [] t = refl
  longest_splat-longest_of (k ∷ p) t =
      ap (λ x. or_else x (splat_of t))
        (longest_splat-through p (find_child k (children_of t)) (longest_splat-longest_of p))

  get-exact_or_splat :
      (p : List Bytes) (t : Trie V) → get p t ≡ or_else (exact p t) (longest_splat p t)
  unfolding get exact longest_splat
  get-exact_or_splat [] t = or_else-none (entry_of t)
  get-exact_or_splat (k ∷ p) t =
      or_else-through (get p) (exact p) (longest_splat p) (splat_of t)
        (find_child k (children_of t)) (get-exact_or_splat p)

  -- `Get` finds the entry of the very path; if there is none, the wildcard entry of the longest
  -- proper prefix of the path that has one; and otherwise nothing.
  pub get-exact_or_longest :
      (p : List Bytes) (t : Trie V)
      → get p t ≡ or_else (exact p t) (longest_of (λ q. splat_at q t) p)
  get-exact_or_longest p t =
      get-exact_or_splat p t ∙ ap (or_else (exact p t)) (longest_splat-longest_of p t)

  find-put_self :
      (k : Bytes) (c : Trie V) (cs : Children V) → find_child k (put_child k c cs) ≡ some c
  unfolding find_child put_child
  find-put_self k c no_children = rw (bytes_eq_refl k) refl
  find-put_self k c (child j d cs) = elim (Bool-cases (bytes_eq j k)) [
    | inl e ↦ rw (e, e) refl
    | inr e ↦ rw (e, e) (find-put_self k c cs)
  ]

  find-put_other :
      (j k : Bytes) (c : Trie V) (cs : Children V)
      → bytes_eq k j ≡ false
      → find_child j (put_child k c cs) ≡ find_child j cs
  unfolding find_child put_child
  find-put_other j k c no_children h = rw h refl
  find-put_other j k c (child i d cs) h = elim (Bool-cases (bytes_eq i k)) [
    | inl e ↦
        let same : bytes_eq i j ≡ false = ap (λ x. bytes_eq x j) (bytes_eq→eq i k e) ∙ h in
        rw (e, same) refl
    | inr e ↦ rw e (ap (λ r. if bytes_eq i j then some d else r) (find-put_other j k c cs h))
  ]

  -- One step down, and what it leaves of the path is valid too.
  set-cons :
      (k : Bytes) (p : List Bytes) (v : V) (t : Trie V)
      → is_valid (k ∷ p) ≡ true
      → ((set (k ∷ p) v t).0
          ≡ node
              (entry_of t)
              (with_splat (bytes_eq k star) v t)
              (put_child k (set p v (or_new (find_child k (children_of t)))).0 (children_of t)))
        × (is_valid p ≡ true)
  unfolding set is_valid
  set-cons k p v t h = elim (Bool-cases (bytes_eq k star)) [
    | inl e ↦ at_star e p (rw e at h)
    | inr e ↦ (rw e refl, rw e at h)
  ]
    where
      at_star :
          bytes_eq k star ≡ true
          → (p : List Bytes) → is_empty p ≡ true
          → ((set (k ∷ p) v t).0
              ≡ node
                  (entry_of t)
                  (with_splat (bytes_eq k star) v t)
                  (put_child k (set p v (or_new (find_child k (children_of t)))).0 (children_of t)))
            × (is_valid p ≡ true)
      at_star e [] h = (rw e refl, refl)
      at_star e (j ∷ p) h = cc

  pub exact-new_trie : (q : List Bytes) → exact q new_trie ≡ none
  unfolding exact new_trie find_child
  exact-new_trie [] = refl
  exact-new_trie (k ∷ q) = refl

  exact-or_new : (q : List Bytes) (o : Option (Trie V)) → exact q (or_new o) ≡ through (exact q) o
  exact-or_new q none = exact-new_trie q
  exact-or_new q (some c) = refl

  pub splat_at-new_trie : (q : List Bytes) → splat_at q new_trie ≡ none
  unfolding splat_at new_trie find_child
  splat_at-new_trie [] = refl
  splat_at-new_trie (k ∷ q) = refl

  splat_at-or_new :
      (q : List Bytes) (o : Option (Trie V)) → splat_at q (or_new o) ≡ through (splat_at q) o
  splat_at-or_new q none = splat_at-new_trie q
  splat_at-or_new q (some c) = refl

  -- A lookup after a child has been replaced.
  through-put :
      (f : Trie V → Option V) (j k : Bytes) (c : Trie V) (cs : Children V) (b : Bool) (v : V)
      → f c ≡ (if b then some v else through f (find_child j cs))
      → through f (find_child k (put_child j c cs))
        ≡ (if bytes_eq j k && b then some v else through f (find_child k cs))
  through-put f j k c cs b v h = elim (Bool-cases (bytes_eq j k)) [
    | inl e ↦ rw e (
        subst
          (λ i.
            through f (find_child i (put_child j c cs))
            ≡ (if b then some v else through f (find_child i cs)))
          (bytes_eq→eq j k e) (ap (through f) (find-put_self j c cs) ∙ h))
    | inr e ↦ rw e (ap (through f) (find-put_other k j c cs e))
  ]

  exact-set :
      (p q : List Bytes) (v : V) (t : Trie V)
      → is_valid p ≡ true
      → exact q (set p v t).0 ≡ (if paths_eq p q then some v else exact q t)
  unfolding exact set
  exact-set [] [] v t h = refl
  exact-set [] (k ∷ q) v t h = refl
  exact-set (j ∷ p) [] v t h = ap entry_of (set-cons j p v t h).0
  exact-set (j ∷ p) (k ∷ q) v t h =
      let (s, h') = set-cons j p v t h in
      let o = find_child j (children_of t) in
      ap (exact (k ∷ q)) s
      ∙ through-put (exact q) j k (set p v (or_new o)).0 (children_of t) (paths_eq p q) v (
          exact-set p q v (or_new o) h'
          ∙ ap (λ r. if paths_eq p q then some v else r) (exact-or_new q o))

  at_star :
      (j : Bytes) (p : List Bytes) (v : V) (t : Trie V)
      → is_valid (j ∷ p) ≡ true
      → with_splat (bytes_eq j star) v t
        ≡ (if bytes_eq j star && paths_eq p [] then some v else splat_of t)
  unfolding is_valid
  at_star j [] v t h = elim (Bool-cases (bytes_eq j star)) [ inl e ↦ rw e refl | inr e ↦ rw e refl ]
  at_star j (k ∷ p) v t h = elim (Bool-cases (bytes_eq j star)) [
    | inl e ↦ let h' = rw e at h in absurd (false_not_true h')
    | inr e ↦ rw e refl
  ]
    where
      false_not_true : false ≡ true → ⊥
      false_not_true h = cc

  splat_at-set :
      (p q : List Bytes) (v : V) (t : Trie V)
      → is_valid p ≡ true
      → splat_at q (set p v t).0 ≡ (if paths_eq p (q ++ star ∷ []) then some v else splat_at q t)
  unfolding splat_at set
  splat_at-set [] [] v t h = refl
  splat_at-set [] (k ∷ q) v t h = refl
  splat_at-set (j ∷ p) [] v t h = ap splat_of (set-cons j p v t h).0 ∙ at_star j p v t h
  splat_at-set (j ∷ p) (k ∷ q) v t h =
      let (s, h') = set-cons j p v t h in
      let o = find_child j (children_of t) in
      ap (splat_at (k ∷ q)) s
      ∙ through-put (splat_at q) j k (set p v (or_new o)).0 (children_of t)
          (paths_eq p (q ++ star ∷ [])) v
          (splat_at-set p q v (or_new o) h'
            ∙ ap (λ r. if paths_eq p (q ++ star ∷ []) then some v else r) (splat_at-or_new q o))

  -- `Set` of a valid path changes the entry at that path, the wildcard entry of the path that it
  -- extends by `*`, and no other entry.
  pub set_changes :
      (p : List Bytes) (v : V) (t : Trie V)
      → is_valid p ≡ true
      → ((q : List Bytes) → exact q (set p v t).0 ≡ (if paths_eq p q then some v else exact q t))
        × ((q : List Bytes)
            → splat_at q (set p v t).0
              ≡ (if paths_eq p (q ++ star ∷ []) then some v else splat_at q t))
  set_changes p v t h = (λ q. exact-set p q v t h, λ q. splat_at-set p q v t h)
