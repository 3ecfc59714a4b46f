-- ===== src/Route/BasicRule/Wildcard.antt =====
-- `hostTrees.get` looks at the longest wildcard only, and then at the empty one. That misses none.
use native.Mathlib.Decide.{dec_le}
use bfe.Common.{
  ℕ, zero, suc, ◌≤◌, ◌≡◌, refl, sym, ap, ◌∙◌, inl, inr, true, false, Option, none, some, [], ◌∷◌,
  Bytes, length, take, drop, length-take, arith, Bool-cases, Option-cases,
}
use bfe.Route.Host.{}
use bfe.Route.BasicRule.{
  has_dot, host_key, PathTrees, HostTrees, RadixTree, search_prefixes, host_get, get_key,
}

-- A longer prefix leaves fewer dots.
has_dot-drop : (s : Bytes) (m n : ℕ) → m ≤ n → has_dot (drop n s) ≡ true → has_dot (drop m s) ≡ true
unfolding has_dot
has_dot-drop s zero zero l h = h
has_dot-drop [] zero (suc n) l h = cc
has_dot-drop (c ∷ s) zero (suc n) l h = ground (arith, has_dot-drop s zero n (omega arith) h)
has_dot-drop [] (suc m) zero l h = h
has_dot-drop [] (suc m) (suc n) l h = h
has_dot-drop (c ∷ s) (suc m) zero l h = absurd (omega arith)
has_dot-drop (c ∷ s) (suc m) (suc n) l h = has_dot-drop s m n (omega arith) h

module _ {V : Type 0} (look : Bytes → Option V) (s : Bytes) where
  -- Where the search by prefixes ends, if the prefix of m bytes has a value.
  abbrev Ends : ℕ → ℕ → Type 0
  Ends m n =
      (k : ℕ) × (v : V) × (search_prefixes look s n ≡ some (take k s, v))
      × (m ≤ k)
      × (k ≤ n)
      × (look (take k s) ≡ some v)

  search_prefixes-Ends : (m n : ℕ) (v : V) → look (take m s) ≡ some v → m ≤ n → Ends m n
  search_prefixes-Ends zero zero v h l = (0, v, rw h refl, omega arith, omega arith, h)
  search_prefixes-Ends (suc m) zero v h l = absurd (omega arith)
  search_prefixes-Ends m (suc n) v h l = elim (Option-cases (look (take (suc n) s))) [
    | inr (u, e) ↦ (suc n, u, rw e refl, l, omega arith, e)
    | inl e ↦ elim (dec_le m n) [
      | yes below ↦
          let (k, u, r, p, q, g) = search_prefixes-Ends m n v h below in
          (k, u, rw e r, p, omega arith, g)
      | no above ↦
          let same : m ≡ suc n = omega arith in
          absurd (none_some (sym e ∙ ap (λ k. look (take k s)) (sym same) ∙ h))
    ]
  ]
    where
      none_some : {u : V} → none ≡ some u → ⊥
      none_some h = cc

no_dot : (s : Bytes) (m k : ℕ) → m ≤ k → has_dot (drop m s) ≡ false → has_dot (drop k s) ≡ false
no_dot s m k l h = elim (Bool-cases (has_dot (drop k s))) [
  | inr e ↦ e
  | inl e ↦ let d = has_dot-drop s m k l e in cc
]

module _ {R : Type 0 → Type 0} (radix : RadixTree R) where
  get_key-wildcard :
      (key : Bytes) (ht : HostTrees R) (k : ℕ) (found : PathTrees R)
      → radix.look key ht.exact ≡ none
      → radix.longest_prefix key ht.wildcard ≡ some (take k key, found)
      → k ≤ length key
      → has_dot (drop k key) ≡ false
      → get_key radix key ht ≡ some found
  get_key-wildcard key ht k found e p l d =
      let whole : length (take k key) ≡ k = length-take k key ∙ omega (arith, l) in
      rw (e, p, whole, d) refl

-- Where no exact host matches, and some wildcard covers the host up to a single label, `get` finds
-- path trees: those of a wildcard that covers the host up to a single label too, and is at least as
-- long.
pub host_get-wildcard :
    {R : Type 0 → Type 0} (radix : RadixTree R) (host : Bytes) (ht : HostTrees R) (m : ℕ)
    (pt : PathTrees R)
    → radix.look (host_key host) ht.exact ≡ none
    → m ≤ length (host_key host)
    → radix.look (take m (host_key host)) ht.wildcard ≡ some pt
    → has_dot (drop m (host_key host)) ≡ false
    → (k : ℕ) × (found : PathTrees R) × (host_get radix host ht ≡ some found)
      × (radix.look (take k (host_key host)) ht.wildcard ≡ some found)
      × (has_dot (drop k (host_key host)) ≡ false)
      × (m ≤ k)
unfolding host_get
host_get-wildcard radix host ht m pt e l g d =
    let key = host_key host in
    let (k, u, r, p, q, v) =
      search_prefixes-Ends (λ k. radix.look k ht.wildcard) key m (length key) pt g l in
    (
      k,
      u,
      get_key-wildcard radix key ht k u e (radix.longest_prefix_law key ht.wildcard ∙ r) q
          (no_dot key m k p d),
      v,
      no_dot key m k p d,
      p,
    )
