-- ===== src/IpDict/Entries.antt =====
-- A dictionary that a file was loaded into, against the addresses of the file's lines.
use mathlib.Core.Path.{subst}
use bfe.Common.{
  ℕ, ◌≤◌, ◌<◌, ◌≡◌, ◌≢◌, refl, sym, Bool, true, false, ◌&&◌, ◌||◌, Option, none, some, List, [],
  ◌∷◌, ◌++◌, leb, arith, Bytes, Bool-cases, Option-cases, inl, inr,
}
use bfe.IpDict.{
  Ip, ip4, ip6, invalid, IpPair, IpSet, IpItems, IpError, to16, ipv4_zero, address_bound,
  check_ip_pair, insert_single, insert_pair,
}
use bfe.IpDict.Count.{All, IsGood, any_of, covers, any_of-append, All-append}
use bfe.IpDict.Search.{}
use bfe.IpDict.Load.{IpNet, ip_equal, insert_line}

-- The address lies between the ends of the entry.
abbrev pub entry_covers : ℕ → Ip × Ip → Bool
entry_covers ip (start_ip, end_ip) = elim (to16 start_ip) [
  | none ↦ false
  | some s ↦ elim (to16 end_ip) [ none ↦ false | some e ↦ leb s ip && leb ip e ]
]

entry_covers-some :
    (ip s e : ℕ) (a b : Ip)
    → to16 a ≡ some s
    → to16 b ≡ some e
    → entry_covers ip (a, b) ≡ (leb s ip && leb ip e)
entry_covers-some ip s e a b p q = rw (p, q, entry_covers) refl

unfoldable pub any_entry : ℕ → List (Ip × Ip) → Bool
any_entry ip [] = false
any_entry ip (r ∷ entries) = entry_covers ip r || any_entry ip entries

-- An entry that starts above :: and does not end at 0.0.0.0.
abbrev pub IsPlain : Ip × Ip → Type 0
IsPlain (start_ip, end_ip) =
    ((s : ℕ) → to16 start_ip ≡ some s → (0 < s) × (s < address_bound))
    × ((e : ℕ) → to16 end_ip ≡ some e → e ≢ ipv4_zero)

any_of-one : (ip : ℕ) (r : IpPair) → any_of (covers ip) (r ∷ []) ≡ covers ip r
unfolding any_of
any_of-one ip r = ground arith

any_entry-append :
    (ip : ℕ) (xs : List (Ip × Ip)) (r : Ip × Ip)
    → any_entry ip (xs ++ r ∷ []) ≡ (any_entry ip xs || entry_covers ip r)
unfolding any_entry
any_entry-append ip [] r = ground arith
any_entry-append ip (x ∷ xs) r = ground (arith, any_entry-append ip xs r)

-- What check_ip_pair lets pass.
check_ip_pair-none :
    (start_ip end_ip : Ip)
    → check_ip_pair start_ip end_ip ≡ none
    → (s : ℕ) × (e : ℕ) × (to16 start_ip ≡ some s) × (to16 end_ip ≡ some e) × (s ≤ e)
unfolding check_ip_pair to16
check_ip_pair-none (ip4 m) (ip4 n) h = (_, _, refl, refl, ground arith)
check_ip_pair-none (ip6 m) (ip6 n) h = (_, _, refl, refl, ground arith)
check_ip_pair-none (ip4 m) (ip6 n) h = (_, _, refl, refl, ground arith)
check_ip_pair-none (ip6 m) (ip4 n) h = (_, _, refl, refl, ground arith)
check_ip_pair-none (ip4 m) invalid h = cc
check_ip_pair-none (ip6 m) invalid h = cc
check_ip_pair-none invalid n h = cc

ip_equal→eq : (a e : Ip) → ip_equal a e ≡ true → a ≡ e
ip_equal→eq (ip4 m) (ip4 n) h = ground arith
ip_equal→eq (ip6 m) (ip6 n) h = ground arith
ip_equal→eq (ip4 m) (ip6 n) h = cc
ip_equal→eq (ip6 m) (ip4 n) h = cc
ip_equal→eq (ip4 m) invalid h = cc
ip_equal→eq (ip6 m) invalid h = cc
ip_equal→eq invalid n h = cc

module _ {S : Type 0} (set : IpSet S) where
  -- The dictionary before `Sort` holds these entries.
  pub record Tracks (t : IpItems S) (entries : List (Ip × Ip)) : Type 0 where
    pub holds : set.Holds t.ip_set
    pub good : All IsGood t.items
    pub same :
        (ip : ℕ)
        → ip < address_bound
        → (set.exist t.ip_set ip || any_of (covers ip) t.items) ≡ any_entry ip entries

  insert_single-none :
      (t : IpItems S) (a : Ip)
      → (insert_single set t a).0 ≡ none
      → (n : ℕ) × (s : S) × (to16 a ≡ some n)
        × (set.add t.ip_set n ≡ some s)
        × ((insert_single set t a).1 ≡ record t { ip_set = s })
  unfolding insert_single
  insert_single-none t a h = elim (Option-cases (to16 a)) [
    | inl f ↦
        let u : (insert_single set t a).0 ≡ some IpError.invalid_ip = rw (f, insert_single) refl in
        cc
    | inr (n, f) ↦ elim (Option-cases (set.add t.ip_set n)) [
      | inl g ↦
          let u : (insert_single set t a).0 ≡ some IpError.set_full =
            rw (f, g, insert_single) refl in
          cc
      | inr (s, g) ↦ (n, s, f, g, rw (f, g, insert_single) refl)
    ]
  ]

  insert_pair-none :
      (t : IpItems S) (a b : Ip)
      → (insert_pair t a b).0 ≡ none
      → (s : ℕ) × (e : ℕ) × (to16 a ≡ some s)
        × (to16 b ≡ some e)
        × (s ≤ e)
        × ((insert_pair t a b).1
            ≡ record t { items = t.items ++ (record { start_ip = s; end_ip = e }) ∷ [] })
  unfolding insert_pair
  insert_pair-none t a b h = elim (Option-cases (check_ip_pair a b)) [
    | inr (x, f) ↦ let u : (insert_pair t a b).0 ≡ some x = rw (f, insert_pair) refl in cc
    | inl f ↦
        let (s, e, p, q, le) = check_ip_pair-none a b f in
        (s, e, p, q, le, rw (f, p, q, insert_pair) refl)
  ]

  single-Tracks :
      (t : IpItems S) (entries : List (Ip × Ip)) (a : Ip)
      → Tracks t entries
      → IsPlain (a, a)
      → (insert_single set t a).0 ≡ none
      → Tracks (insert_single set t a).1 (entries ++ (a, a) ∷ [])
  single-Tracks t entries a v g h =
      let (n, s, p, q, e) = insert_single-none t a h in
      let (_, below) = g.0 n p in
      rw e (record {
        holds = set.add_holds t.ip_set s n v.holds q;
        good = v.good;
        same = λ ip b.
            let x = set.add_lem t.ip_set s n ip v.holds q below b in
            let y = v.same ip b in
            let z = any_entry-append ip entries (a, a) in
            let c = entry_covers-some ip n n a a p p in ground arith;
      })

  pair-Tracks :
      (t : IpItems S) (entries : List (Ip × Ip)) (a b : Ip)
      → Tracks t entries
      → IsPlain (a, b)
      → (insert_pair t a b).0 ≡ none
      → Tracks (insert_pair t a b).1 (entries ++ (a, b) ∷ [])
  pair-Tracks t entries a b v g h =
      let (s, e, p, q, le, eq) = insert_pair-none t a b h in
      let (positive, _) = g.0 s p in
      let plain = g.1 e q in
      let r : IpPair = record { start_ip = s; end_ip = e } in
      rw eq (record {
        holds = v.holds;
        good = All-append IsGood t.items (r ∷ []) v.good ((positive, le, plain), tt);
        same = λ ip bound.
            let y = v.same ip bound in
            let z = any_of-append (covers ip) t.items (r ∷ []) in
            let w = any_entry-append ip entries (a, b) in
            let c = entry_covers-some ip s e a b p q in let l = any_of-one ip r in ground arith;
      })

  pub insert_line-Tracks :
      (parse_ip : Bytes → Option Ip) (parse_cidr : Bytes → Option IpNet)
      (sort : List IpPair → List IpPair) (t : IpItems S) (entries : List (Ip × Ip)) (r : Ip × Ip)
      → Tracks t entries
      → IsPlain r
      → (insert_line parse_ip parse_cidr set sort t r).0 ≡ none
      → Tracks (insert_line parse_ip parse_cidr set sort t r).1 (entries ++ r ∷ [])
  unfolding insert_line
  insert_line-Tracks parse_ip parse_cidr sort t entries (a, b) v g h =
      elim (Bool-cases (ip_equal a b)) [
        | inl e ↦
            let same = ip_equal→eq a b e in
            rw e (
              subst (λ x. Tracks (insert_single set t a).1 (entries ++ (a, x) ∷ [])) same
                (single-Tracks t entries a v (subst (λ x. IsPlain (a, x)) (sym same) g)
                  (rw e at h)))
        | inr e ↦ rw e (pair-Tracks t entries a b v g (rw e at h))
      ]
