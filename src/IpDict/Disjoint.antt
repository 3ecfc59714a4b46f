-- ===== src/IpDict/Disjoint.antt =====
-- What mergeItems returns: ranges that cover the same addresses, none of them twice.
use bfe.Common.{
  ℕ, zero, suc, ◌+◌, ◌-◌, ◌≤◌, ◌≡◌, refl, true, List, [], ◌∷◌, arith, length, Bool-cases, inl, inr,
}
use bfe.IpDict.{IpPair, is_zero, Merged, merge_from, merge_loop, merge_items}
use bfe.IpDict.Count.{All, IsGood, count_if, any_of, covers_live, any_of-count_if}
use bfe.IpDict.Ranges.{IsCleared, Below, next_bound, Falls, is_dead, covered-bounds}
use bfe.IpDict.Merge.{IsRange, Outcome, merge_from-Outcome}

-- The ranges that the outer loop leaves, of those that it was given.
pub record IsMerged (items : List IpPair) (l : List IpPair) (merged_num : ℕ) : Type 0 where
  pub ranges : All IsRange l
  pub counts : count_if is_dead l ≡ merged_num + count_if is_dead items
  pub lengths : length l ≡ length items
  pub same : (ip : ℕ) → any_of (covers_live ip) l ≡ any_of (covers_live ip) items
  pub once : (ip : ℕ) → count_if (covers_live ip) l ≤ 1

Below-IsRange : (x : ℕ) (items : List IpPair) → All (Below x) items → All IsRange items
Below-IsRange x [] a = tt
Below-IsRange x (r ∷ items) a = (ground arith, Below-IsRange x items a.1)

merge_loop-short :
    (items : List IpPair) → length items ≤ 1 → All IsRange items → IsMerged items items 0
unfolding count_if
merge_loop-short [] h a = record {
  ranges = tt;
  counts = omega arith;
  lengths = refl;
  same = λ ip. refl;
  once = λ ip. omega arith;
}
merge_loop-short (r ∷ []) h a = record {
  ranges = a;
  counts = omega arith;
  lengths = refl;
  same = λ ip. refl;
  once = λ ip. ground arith;
}
merge_loop-short (r ∷ k ∷ items) h a = absurd (omega arith)

-- A range that was merged away in front of merged ranges.
skip-IsMerged :
    (i : IpPair) (items l : List IpPair) (n : ℕ)
    → IsCleared i
    → IsMerged items l n
    → IsMerged (i ∷ items) (i ∷ l) (0 + n)
unfolding count_if any_of
skip-IsMerged i items l n z m = record {
  ranges = (inl z, m.ranges);
  counts = ground (arith, m.counts);
  lengths = omega (arith, m.lengths);
  same = λ ip. ground (arith, m.same ip);
  once = λ ip. ground (arith, m.once ip);
}

not_covered :
    (i : IpPair) (others l : List IpPair) (c n ip : ℕ)
    → All (Below i.start_ip) others
    → Falls c 0 others
    → IsMerged others l n
    → covers_live ip i ≡ true
    → count_if (covers_live ip) l ≡ 0
not_covered i others l c n ip b f m e = elim (Bool-cases (any_of (covers_live ip) others)) [
  | inl t ↦ let (_, k) = covered-bounds i.start_ip c 0 ip others b f t in absurd (ground arith)
  | inr t ↦ ground (arith, any_of-count_if (covers_live ip) l, m.same ip)
]

-- A range that has taken in those behind it.
merge-IsMerged :
    (c n : ℕ) (i : IpPair) (items l : List IpPair) (m : Merged)
    → IsGood i
    → Outcome c i items m
    → IsMerged m.others l n
    → IsMerged (i ∷ items) (m.first ∷ l) (m.merged_num + n)
unfolding count_if any_of
merge-IsMerged c n i items l m g o v = record {
  ranges = (inr o.good, v.ranges);
  counts = ground (arith, v.counts, o.counts, o.good);
  lengths = omega (arith, v.lengths, o.lengths);
  same = λ ip. ground (arith, v.same ip, o.union ip, o.good);
  once = λ ip. elim (Bool-cases (covers_live ip m.first)) [
    | inl e ↦ ground (arith, not_covered m.first m.others l c n ip o.below o.falls v e)
    | inr e ↦ ground (arith, v.once ip)
  ];
}

merge_loop-IsMerged :
    (rounds c : ℕ) (items : List IpPair)
    → length items ≤ suc rounds
    → All IsRange items
    → Falls c 0 items
    → IsMerged items (merge_loop rounds items).0 (merge_loop rounds items).1
unfolding merge_loop
merge_loop-IsMerged zero c items h a f = merge_loop-short items h a
merge_loop-IsMerged (suc rounds) c [] h a f = merge_loop-short [] (omega arith) tt
merge_loop-IsMerged (suc rounds) c (i ∷ items) h a f = elim (Bool-cases (is_zero i)) [
  | inl e ↦
      let z : IsCleared i = ground (arith, a.0) in
      rw e (
        skip-IsMerged i items _ _ z
          (merge_loop-IsMerged rounds (next_bound c i) items (omega arith) a.1 f.1))
  | inr e ↦
      let g : IsGood i = ground (arith, a.0) in
      let b : next_bound c i ≡ i.start_ip = ground arith in
      let o =
        merge_from-Outcome i.start_ip i.start_ip i [] items
          (record { good = g; low = omega arith; below = tt; falls = omega arith }) a.1
          (rw b at f.1) in
      rw e (
        merge-IsMerged i.start_ip _ i items _ _ g o (
          merge_loop-IsMerged rounds i.start_ip (merge_from i [] items).others
            (omega (arith, o.lengths)) (Below-IsRange _ _ o.below) o.falls))
]

pub merge_items-IsMerged :
    (c : ℕ) (items : List IpPair)
    → All IsRange items
    → Falls c 0 items
    → IsMerged items (merge_items items).0 (merge_items items).1
unfolding merge_items
merge_items-IsMerged c items a f = merge_loop-IsMerged (length items - 1) c items (omega arith) a f
