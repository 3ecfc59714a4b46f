-- ===== src/IpDict/Merge.antt =====
-- What mergeItems makes of ranges that fall by their starts: the same addresses, and no overlaps.
use bfe.Common.{
  ℕ, ◌+◌, ◌≤◌, ◌≡◌, refl, ap, ◌||◌, List, [], ◌∷◌, ◌++◌, if◌then◌else◌, leb, ◌==◌, arith, length,
  Bool-cases, inl, inr, ◌⊎◌, length-append,
}
use mathlib.Core.List.{append-nil}
use bfe.IpDict.{IpPair, ipv4_zero, ipv6_zero, clear_items, cleared, Merged, check_merge, merge_from}
use bfe.IpDict.Count.{
  All, IsGood, count_if, any_of, covers, covers_live, any_of-append, count_if-append, All-append,
}
use bfe.IpDict.Ranges.{
  IsCleared, Below, next_bound, Falls, is_dead, Falls-weaken, Falls-append, Falls-cleared, Falls-le,
  covered-bounds, clear_items-IsCleared, clear_items-count, any_of-cleared, count_if-cleared,
  Below-cleared,
}

-- items[i] and the items between i and j, whose starts fall from c to b.
pub record IsMerging (c b : ℕ) (i : IpPair) (between : List IpPair) : Type 0 where
  pub good : IsGood i
  pub low : b ≤ i.start_ip
  pub below : All (Below i.start_ip) between
  pub falls : Falls c b between

abbrev pub IsRange : IpPair → Type 0
IsRange r = IsCleared r ⊎ IsGood r

-- The step of the inner loop.
abbrev pub merge_step : IpPair → List IpPair → IpPair → Merged
merge_step i between j =
    if j.end_ip == ipv6_zero || i.end_ip == ipv4_zero
    then record { first = i; others = between ++ j ∷ []; merged_num = 0 }
    else check_merge i between j

abbrev kept : IpPair → List IpPair → IpPair → Merged
kept i between j = record { first = i; others = between ++ j ∷ []; merged_num = 0 }

abbrev joined : IpPair → List IpPair → IpPair → Merged
joined i between j = record {
  first = record {
    start_ip = j.start_ip;
    end_ip = if leb i.end_ip j.end_ip then j.end_ip else i.end_ip;
  };
  others = (clear_items between).0 ++ cleared ∷ [];
  merged_num = 1 + (clear_items between).1;
}

-- The two ends of a step.
abbrev Steps : IpPair → List IpPair → IpPair → Type 0
Steps i between j =
    ((merge_step i between j ≡ kept i between j) × Below i.start_ip j)
    ⊎ ((merge_step i between j ≡ joined i between j) × IsGood j × (i.start_ip ≤ j.end_ip))

merge_step-cases :
    (i : IpPair) (between : List IpPair) (j : IpPair) → IsGood i → IsRange j → Steps i between j
unfolding check_merge
merge_step-cases i between j g h =
    elim (Bool-cases (j.end_ip == ipv6_zero || i.end_ip == ipv4_zero)) [
      | inl e ↦ inl (rw e refl, ground arith)
      | inr e ↦ elim (Bool-cases (leb i.start_ip j.end_ip)) [
        | inl t ↦ inr (rw (e, t) refl, ground arith, ground arith)
        | inr t ↦ inl (rw (e, t) refl, ground arith)
      ]
    ]

module _ (c b : ℕ) (i : IpPair) (between : List IpPair) (j : IpPair)
    (v : IsMerging c b i between) where
  kept-IsMerging :
      Below i.start_ip j → j.start_ip ≤ b → IsMerging c (next_bound b j) i (between ++ j ∷ [])
  kept-IsMerging k h = record {
    good = v.good;
    low = ground (arith, v.low);
    below = All-append (Below i.start_ip) between (j ∷ []) v.below (k, tt);
    falls = Falls-append c b between j v.falls h;
  }

  between_cleared : All IsCleared ((clear_items between).0 ++ cleared ∷ [])
  between_cleared =
      All-append IsCleared _ (cleared ∷ []) (clear_items-IsCleared i.start_ip between v.below)
        ((refl, refl), tt)

  joined-IsMerging :
      IsGood j
      → i.start_ip ≤ j.end_ip
      → j.start_ip ≤ b
      → IsMerging c (next_bound b j) (joined i between j).first (joined i between j).others
  joined-IsMerging g t h =
      let k = Falls-le c b between v.falls in
      record {
        good = ground (arith, v.good);
        low = ground arith;
        below = Below-cleared j.start_ip _ between_cleared;
        falls = Falls-cleared c (next_bound b j) _ (ground arith) between_cleared;
      }

  -- The numbers of merged ranges add up.
  joined-count :
      IsGood j
      → count_if is_dead (joined i between j).others
        ≡ (joined i between j).merged_num + count_if is_dead (between ++ j ∷ [])
  unfolding count_if
  joined-count g =
      let (m, l) = clear_items-count i.start_ip between v.below in
      let e = count_if-cleared _ between_cleared in
      let a = count_if-append is_dead between (j ∷ []) in
      ground (arith, length-append (clear_items between).0 (cleared ∷ []))

  joined-union :
      IsGood j
      → i.start_ip ≤ j.end_ip
      → j.start_ip ≤ b
      → (ip : ℕ)
      → (covers ip (joined i between j).first
          || any_of (covers_live ip) (joined i between j).others)
        ≡ (covers ip i || any_of (covers_live ip) (between ++ j ∷ []))
  unfolding any_of
  joined-union g t h ip =
      rw (any_of-cleared ip _ between_cleared, any_of-append (covers_live ip) between (j ∷ []))
        (elim (Bool-cases (any_of (covers_live ip) between)) [
          | inl e ↦
              let (x, y) = covered-bounds i.start_ip c b ip between v.below v.falls e in
              rw e (ground (arith, v.good, v.low))
          | inr e ↦ rw e (ground (arith, v.good, v.low))
        ])

-- The loops: what a part of them has made of i and the items behind it.
pub record Outcome (c : ℕ) (i : IpPair) (items : List IpPair) (m : Merged) : Type 0 where
  pub good : IsGood m.first
  pub below : All (Below m.first.start_ip) m.others
  pub falls : Falls c 0 m.others
  pub counts : count_if is_dead m.others ≡ m.merged_num + count_if is_dead items
  pub union :
      (ip : ℕ)
      → (covers ip m.first || any_of (covers_live ip) m.others)
        ≡ (covers ip i || any_of (covers_live ip) items)
  pub lengths : length m.others ≡ length items

append-cons {ℓ} : {A : Type ℓ} (xs ys : List A) (y : A) → (xs ++ y ∷ []) ++ ys ≡ xs ++ y ∷ ys
append-cons [] ys y = refl
append-cons (x ∷ xs) ys y = ap (λ t. x ∷ t) (append-cons xs ys y)

-- A step, and the rest of the loop behind it.
step-Outcome :
    (c : ℕ) (i : IpPair) (between : List IpPair) (j : IpPair) (items : List IpPair) (m r : Merged)
    → count_if is_dead m.others ≡ m.merged_num + count_if is_dead (between ++ j ∷ [])
    → ((ip : ℕ)
        → (covers ip m.first || any_of (covers_live ip) m.others)
          ≡ (covers ip i || any_of (covers_live ip) (between ++ j ∷ [])))
    → length m.others ≡ length (between ++ j ∷ [])
    → Outcome c m.first (m.others ++ items) r
    → Outcome c i (between ++ j ∷ items) (record r { merged_num = m.merged_num + r.merged_num })
step-Outcome c i between j items m r e u l o =
    let p = append-cons between items j in
    rw (← p) (record {
      good = o.good;
      below = o.below;
      falls = o.falls;
      counts =
          rw (count_if-append is_dead (between ++ j ∷ []) items)
            (omega (arith, o.counts, e, count_if-append is_dead m.others items));
      union = λ ip.
          rw (any_of-append (covers_live ip) (between ++ j ∷ []) items)
            (ground (arith, o.union ip, u ip, any_of-append (covers_live ip) m.others items));
      lengths =
          rw (length-append (between ++ j ∷ []) items)
            (omega (arith, o.lengths, l, length-append m.others items));
    })

joined-length :
    (x : ℕ) (i : IpPair) (between : List IpPair) (j : IpPair)
    → All (Below x) between
    → length (joined i between j).others ≡ length (between ++ j ∷ [])
joined-length x i between j b =
    let (_, l) = clear_items-count x between b in
    omega (
      arith,
      l,
      length-append (clear_items between).0 (cleared ∷ []),
      length-append between (j ∷ []),
    )

-- The inner loop.
pub merge_from-Outcome :
    (c b : ℕ) (i : IpPair) (between items : List IpPair)
    → IsMerging c b i between
    → All IsRange items
    → Falls b 0 items
    → Outcome c i (between ++ items) (merge_from i between items)
unfolding merge_from
merge_from-Outcome c b i between [] v a f = rw (append-nil between) (record {
  good = v.good;
  below = v.below;
  falls = Falls-weaken c b 0 between (omega arith) v.falls;
  counts = omega arith;
  union = λ ip. refl;
  lengths = refl;
})
merge_from-Outcome c b i between (j ∷ items) v a f =
    elim (merge_step-cases i between j v.good a.0) [
      | inl (e, k) ↦ rw e (
          step-Outcome c i between j items (kept i between j) _ (omega arith) (λ ip. refl) refl
            (merge_from-Outcome c (next_bound b j) i (between ++ j ∷ []) items
              (kept-IsMerging c b i between j v k f.0) a.1 f.1))
      | inr (e, g, t) ↦ rw e (
          step-Outcome c i between j items (joined i between j) _ (joined-count c b i between j v g)
            (joined-union c b i between j v g t f.0) (joined-length i.start_ip i between j v.below)
            (merge_from-Outcome c (next_bound b j) (joined i between j).first
              (joined i between j).others items (joined-IsMerging c b i between j v g t f.0) a.1
              f.1))
    ]
