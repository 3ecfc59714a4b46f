-- ===== src/IpDict/Search.antt =====
-- The binary search over the sorted dictionary against the ranges that were put into it.
use bfe.Common.{
  ℕ, suc, ◌-◌, ◌≤◌, ◌<◌, ◌≡◌, refl, ap, Bool, true, false, ◌||◌, ◌&&◌, none, some, List, [], ◌∷◌,
  if◌then◌else◌, leb, ◌==◌, arith, length, take, ◌≢◌, Bool-cases, inl, inr, ◌∙◌, sym,
}
use bfe.IpDict.{
  Ip, IpPair, IpSet, IpItems, ipv4_zero, first_at_most, merge_items, sort_items, search, to16,
}
use bfe.IpDict.Count.{
  All, IsGood, is_good, count_if, any_of, covers, covers_live, is_live, any_of-count_if,
  count_if-length, count_if-le-length, count_if-All, All-count_if,
}
use bfe.IpDict.Ranges.{IsCleared, Falls, is_dead, any_of-cleared, count_if-cleared}
use bfe.IpDict.Merge.{IsRange}
use bfe.IpDict.Disjoint.{merge_items-IsMerged}

abbrev pub Descending : List IpPair → Type 0
Descending [] = Unit
Descending (r ∷ items) = All (λ k. k.start_ip ≤ r.start_ip) items × Descending items

-- What sort.Sort promises: the same ranges, each as often, with the greatest starts first.
pub record IsSort (sort : List IpPair → List IpPair) : Type 0 where
  pub same : (p : IpPair → Bool) (items : List IpPair) → count_if p (sort items) ≡ count_if p items
  pub descending : (items : List IpPair) → Descending (sort items)

Descending-Falls :
    (c : ℕ) (items : List IpPair)
    → All (λ k. k.start_ip ≤ c) items
    → Descending items
    → Falls c 0 items
Descending-Falls c [] a d = omega arith
Descending-Falls c (r ∷ items) a d = elim (Bool-cases (r.end_ip == 0)) [
  | inl e ↦ rw e (a.0, Descending-Falls c items a.1 d.1)
  | inr e ↦ rw e (a.0, Descending-Falls r.start_ip items d.0 d.1)
]

Falls-from_head : (items : List IpPair) → Descending items → (c : ℕ) × Falls c 0 items
Falls-from_head [] d = (0, omega arith)
Falls-from_head (r ∷ items) d =
    (r.start_ip, Descending-Falls r.start_ip (r ∷ items) (omega arith, d.0) d)

abbrev is_range : IpPair → Bool
is_range r = (r.start_ip == 0 && r.end_ip == 0) || is_good r

module _ (sort : List IpPair → List IpPair) (v : IsSort sort) where
  length-sort : (items : List IpPair) → length (sort items) ≡ length items
  length-sort items =
      sym (count_if-length (sort items)) ∙ v.same (λ _. true) items ∙ count_if-length items

  -- A test that all pass, before sorting and after.
  All-sort :
      (P : IpPair → Type 0) (p : IpPair → Bool)
      → ((r : IpPair) → P r → p r ≡ true)
      → ((r : IpPair) → p r ≡ true → P r)
      → (items : List IpPair) → All P items
      → All P (sort items)
  All-sort P p to from items a =
      All-count_if P p from (sort items)
        (v.same p items ∙ count_if-All P p to items a ∙ sym (length-sort items))

  any_of-sort : (p : IpPair → Bool) (items : List IpPair) → any_of p (sort items) ≡ any_of p items
  any_of-sort p items =
      let e = v.same p items in
      any_of-count_if p (sort items) ∙ rw e (sym (any_of-count_if p items))

  All-IsRange-sort : (items : List IpPair) → All IsRange items → All IsRange (sort items)
  All-IsRange-sort = All-sort IsRange is_range (λ r h. ground arith) (λ r h. ground arith)

  All-IsGood-sort : (items : List IpPair) → All IsGood items → All IsGood (sort items)
  All-IsGood-sort = All-sort IsGood is_good (λ r h. ground arith) (λ r h. ground arith)

abbrev hit : ℕ → List IpPair → Bool
hit ip items = elim (first_at_most ip items) [ none ↦ false | some r ↦ leb ip r.end_ip ]

-- A range that begins no later than x and reaches past it covers x.
covers-earlier :
    (x ip : ℕ) (items : List IpPair)
    → All (λ k. k.start_ip ≤ x) items
    → x ≤ ip
    → any_of (covers_live ip) items ≡ true
    → any_of (covers_live x) items ≡ true
unfolding any_of
covers-earlier x ip [] a h e = e
covers-earlier x ip (r ∷ items) a h e = elim (Bool-cases (covers_live ip r)) [
  | inl t ↦ let u : covers_live x r ≡ true = ground (arith, a.0) in ground arith
  | inr t ↦ let u = covers-earlier x ip items a.1 h (ground arith) in ground arith
]

All-below_zero :
    (items : List IpPair)
    → All (λ k. k.start_ip ≤ 0) items
    → All IsRange items
    → All IsCleared items
All-below_zero [] a g = tt
All-below_zero (r ∷ items) a g = (ground (arith, g.0), All-below_zero items a.1 g.1)

hit-cons :
    (ip : ℕ) (r : IpPair) (items : List IpPair)
    → hit ip (r ∷ items) ≡ (if leb r.start_ip ip then leb ip r.end_ip else hit ip items)
unfolding first_at_most
hit-cons ip r items = ground arith

-- Nothing behind the first range that begins at or before an address covers what that does not.
first-decides :
    (ip : ℕ) (r : IpPair) (items : List IpPair)
    → All (λ k. k.start_ip ≤ r.start_ip) items
    → IsRange r
    → is_live r ≡ true
    → r.start_ip ≤ ip
    → count_if (covers_live r.start_ip) (r ∷ items) ≤ 1
    → leb ip r.end_ip ≡ any_of (covers_live ip) (r ∷ items)
unfolding count_if any_of
first-decides ip r items d a live t o = elim (Bool-cases (leb ip r.end_ip)) [
  | inl e ↦ ground arith
  | inr e ↦ elim (Bool-cases (any_of (covers_live ip) items)) [
    | inl k ↦
        let u = covers-earlier r.start_ip ip items d t k in
        absurd (ground (arith, any_of-count_if (covers_live r.start_ip) items))
    | inr k ↦ ground arith
  ]
]

-- In sorted ranges, the first that begins at or before an address decides.
hit-take :
    (ip : ℕ) (items : List IpPair)
    → Descending items
    → All IsRange items
    → ((x : ℕ) → count_if (covers_live x) items ≤ 1)
    → hit ip (take (length items - count_if is_dead items) items) ≡ any_of (covers_live ip) items
unfolding first_at_most count_if any_of
hit-take ip [] d a o = refl
hit-take ip (r ∷ items) d a o = elim (Bool-cases (is_live r)) [
  | inr dead ↦
      let s : r.start_ip ≡ 0 = ground (arith, a.0) in
      let z = All-below_zero items (rw s at (d.0)) a.1 in
      let n = count_if-cleared items z in
      let e : suc (length items) - suc (count_if is_dead items) ≡ 0 = omega arith in
      rw (dead, any_of-cleared ip items z, e) refl
  | inl live ↦
      let n = count_if-le-length is_dead items in
      let e : suc (length items) - count_if is_dead items
          ≡ suc (length items - count_if is_dead items) =
        omega arith in
      rw (live, e, hit-cons ip r (take (length items - count_if is_dead items) items))
        (elim (Bool-cases (leb r.start_ip ip)) [
          | inl t ↦
              let f = first-decides ip r items d.0 a.0 live (ground arith) (o r.start_ip) in
              rw t (ground arith)
          | inr t ↦
              let ih = hit-take ip items d.1 a.1 (λ x. ground (arith, o x)) in rw t (ground arith)
        ])
]

good-IsRange : (items : List IpPair) → All IsGood items → All IsRange items
good-IsRange [] a = tt
good-IsRange (r ∷ items) a = (inr a.0, good-IsRange items a.1)

no_dead : (items : List IpPair) → All IsGood items → count_if is_dead items ≡ 0
unfolding count_if
no_dead [] a = refl
no_dead (r ∷ items) a = ground (arith, no_dead items a.1)

any_of-live :
    (ip : ℕ) (items : List IpPair)
    → All IsGood items
    → any_of (covers_live ip) items ≡ any_of (covers ip) items
unfolding any_of
any_of-live ip [] a = refl
any_of-live ip (r ∷ items) a = ground (arith, any_of-live ip items a.1)

-- The items of the dictionary after `Sort`.
abbrev sorted_items : (List IpPair → List IpPair) → List IpPair → List IpPair
sorted_items sort items =
    let (merged, merged_num) = merge_items (sort items) in
    take (length merged - merged_num) (sort merged)

sorted_items-hit :
    (sort : List IpPair → List IpPair)
    → IsSort sort
    → (items : List IpPair) → All IsGood items
    → (ip : ℕ) → hit ip (sorted_items sort items) ≡ any_of (covers ip) items
sorted_items-hit sort v items g ip =
    let sorted = sort items in
    let merged = (merge_items sorted).0 in
    let good = All-IsGood-sort sort v items g in
    let (c, f) = Falls-from_head sorted (v.descending items) in
    let m = merge_items-IsMerged c sorted (good-IsRange sorted good) f in
    let n : length merged - (merge_items sorted).1
        ≡ length (sort merged) - count_if is_dead (sort merged) =
      omega
        (arith, length-sort sort v merged, v.same is_dead merged, m.counts, no_dead sorted good) in
    rw n (
      hit-take ip (sort merged) (v.descending merged) (All-IsRange-sort sort v merged m.ranges)
        (λ x. omega (arith, v.same (covers_live x) merged, m.once x))
      ∙ any_of-sort sort v (covers_live ip) merged
      ∙ m.same ip
      ∙ any_of-live ip sorted good
      ∙ any_of-sort sort v (covers ip) items)

-- Whatever order sort.Sort gives to ranges with the same start, `Search` in a dictionary after
-- `Sort` finds an address exactly if it is one of the single addresses or lies in one of the ranges
-- that were inserted, when every range starts above `::`, ends no earlier than it starts, and does
-- not end at 0.0.0.0.
pub search-sort_items :
    {S : Type 0} (set : IpSet S) (sort : List IpPair → List IpPair)
    → IsSort sort
    → (t : IpItems S)
    → All (λ r. (0 < r.start_ip) × (r.start_ip ≤ r.end_ip) × (r.end_ip ≢ ipv4_zero)) t.items
    → (src_ip : Ip) (ip : ℕ) → to16 src_ip ≡ some ip
    → search set (some (sort_items sort t)) src_ip
      ≡ (set.exist t.ip_set ip || any_of (λ r. leb r.start_ip ip && leb ip r.end_ip) t.items)
unfolding search sort_items
search-sort_items set sort v t g src_ip ip e =
    let h = sorted_items-hit sort v t.items g ip in
    rw (e, search) (ap (λ b. set.exist t.ip_set ip || b) h)
