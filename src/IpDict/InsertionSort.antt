-- ===== src/IpDict/InsertionSort.antt =====
-- sort.Sort as Go runs it on few items: by insertion, and equal starts change their order.
use bfe.Common.{
  ℕ, ◌+◌, ◌≤◌, ◌≡◌, refl, Bool, List, [], ◌∷◌, if◌then◌else◌, leb, arith, Bool-cases, inl, inr,
}
use bfe.IpDict.{IpPair}
use bfe.IpDict.Count.{All, count_if}
use bfe.IpDict.Search.{IsSort, Descending}

-- An element moves to the left while Less holds, that is, past those with the same start too.
unfoldable pub insert : IpPair → List IpPair → List IpPair
insert r [] = r ∷ []
insert r (k ∷ items) = if leb k.start_ip r.start_ip then r ∷ k ∷ items else k ∷ insert r items

unfoldable pub insertion_sort : List IpPair → List IpPair → List IpPair
unfolding insert
insertion_sort sorted [] = sorted
insertion_sort sorted (r ∷ items) = insertion_sort (insert r sorted) items

count_if-insert :
    (p : IpPair → Bool) (r : IpPair) (items : List IpPair)
    → count_if p (insert r items) ≡ count_if p (r ∷ items)
unfolding insert count_if
count_if-insert p r [] = refl
count_if-insert p r (k ∷ items) = ground (arith, count_if-insert p r items)

count_if-insertion_sort :
    (p : IpPair → Bool) (sorted items : List IpPair)
    → count_if p (insertion_sort sorted items) ≡ count_if p sorted + count_if p items
unfolding insertion_sort count_if
count_if-insertion_sort p sorted [] = omega arith
count_if-insertion_sort p sorted (r ∷ items) =
    let i = count_if-insert p r sorted in
    let s = count_if-insertion_sort p (insert r sorted) items in ground arith

insert-All :
    (x : ℕ) (r : IpPair) (items : List IpPair)
    → r.start_ip ≤ x
    → All (λ k. k.start_ip ≤ x) items
    → All (λ k. k.start_ip ≤ x) (insert r items)
unfolding insert
insert-All x r [] h a = (h, tt)
insert-All x r (k ∷ items) h a = elim (Bool-cases (leb k.start_ip r.start_ip)) [
  | inl e ↦ rw e (h, a)
  | inr e ↦ rw e (a.0, insert-All x r items h a.1)
]

All-raise :
    (x y : ℕ) (items : List IpPair)
    → x ≤ y
    → All (λ k. k.start_ip ≤ x) items
    → All (λ k. k.start_ip ≤ y) items
All-raise x y [] h a = tt
All-raise x y (k ∷ items) h a = (omega (arith, a.0), All-raise x y items h a.1)

insert-Descending :
    (r : IpPair) (items : List IpPair) → Descending items → Descending (insert r items)
unfolding insert
insert-Descending r [] d = (tt, tt)
insert-Descending r (k ∷ items) d = elim (Bool-cases (leb k.start_ip r.start_ip)) [
  | inl e ↦
      let h : k.start_ip ≤ r.start_ip = ground arith in
      rw e ((h, All-raise k.start_ip r.start_ip items h d.0), d)
  | inr e ↦ rw e (insert-All k.start_ip r items (ground arith) d.0, insert-Descending r items d.1)
]

insertion_sort-Descending :
    (sorted items : List IpPair) → Descending sorted → Descending (insertion_sort sorted items)
unfolding insertion_sort
insertion_sort-Descending sorted [] d = d
insertion_sort-Descending sorted (r ∷ items) d =
    insertion_sort-Descending (insert r sorted) items (insert-Descending r sorted d)

pub insertion_sort-IsSort : IsSort (insertion_sort [])
unfolding count_if
insertion_sort-IsSort = record {
  same = λ p items. omega (arith, count_if-insertion_sort p [] items);
  descending = λ items. insertion_sort-Descending [] items tt;
}
