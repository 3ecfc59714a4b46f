-- ===== src/IpDict/Examples.antt =====
-- Runs of the dictionary.
use bfe.Common.{
  ℕ, ◌+◌, ◌<◌, ◌≡◌, refl, Bool, false, ◌||◌, ◌&&◌, Option, none, some, List, [], ◌∷◌, if◌then◌else◌,
  leb, ◌==◌, arith, length,
}
use bfe.IpDict.{
  address_bound, Ip, IpPair, IpSet, IpItems, IpError, to16, ipv4_zero, sort_items, search,
  check_ip_pair,
}
use bfe.IpDict.Count.{any_of}
use bfe.IpDict.Search.{search-sort_items}
use bfe.IpDict.InsertionSort.{insert, insertion_sort, insertion_sort-IsSort}

-- A set of at most two addresses.
exist_in : List ℕ → ℕ → Bool
exist_in [] k = false
exist_in (j ∷ js) k = j == k || exist_in js k

new_pair : ℕ → Option (List ℕ)
new_pair n = some []

add_to : List ℕ → ℕ → Option (List ℕ)
add_to js j = if leb 2 (length js) then none else some (j ∷ js)

new_pair-lem : (n : ℕ) (s : List ℕ) → new_pair n ≡ some s → (k : ℕ) → exist_in s k ≡ false
unfolding new_pair exist_in
new_pair-lem n s h k = ground arith

add_to-lem :
    (s s' : List ℕ) (j k : ℕ)
    → Unit {0}
    → add_to s j ≡ some s'
    → j < address_bound
    → k < address_bound
    → exist_in s' k ≡ (j == k || exist_in s k)
unfolding add_to exist_in
add_to-lem s s' j k u h _ _ = ground arith

abbrev pair_set : IpSet (List ℕ)
pair_set = record {
  new = new_pair;
  exist = exist_in;
  add = add_to;
  len = length;
  Holds = λ _. Unit;
  new_holds = λ _ _ _. tt;
  new_lem = new_pair-lem;
  add_holds = λ _ _ _ _ _. tt;
  add_lem = add_to-lem;
}

abbrev range : ℕ → ℕ → IpPair
range s e = record { start_ip = s; end_ip = e }

abbrev loaded : List IpPair → IpItems (List ℕ)
loaded items = record { ip_set = 99 ∷ []; items = items; version = [] }

abbrev found : List IpPair → ℕ → Bool
found items ip = search pair_set (some (sort_items (insertion_sort []) (loaded items))) (Ip.ip6 ip)

abbrev overlapping : List IpPair
overlapping = range 50 60 ∷ range 10 20 ∷ range 15 40 ∷ range 12 14 ∷ []

search-sort_items_example :
    found overlapping 30
    ≡ (exist_in (99 ∷ []) 30 || any_of (λ r. leb r.start_ip 30 && leb 30 r.end_ip) overlapping)
unfolding to16
search-sort_items_example =
    search-sort_items pair_set (insertion_sort []) insertion_sort-IsSort (loaded overlapping)
      (omega arith) (Ip.ip6 30) 30 refl

two_left :
    (sort_items (insertion_sort []) (loaded overlapping)).items ≡ range 50 60 ∷ range 10 40 ∷ []
unfolding sort_items insertion_sort insert
two_left = refl

-- Of two ranges the one that starts at :: is lost, since the range merged into it sorts like it.
first_range_lost : found (range 0 5 ∷ range 1 2 ∷ []) 3 ≡ false
unfolding search sort_items insertion_sort insert exist_in
first_range_lost = refl

-- A range that ends at 0.0.0.0 is not merged with a longer one around it, and hides it.
shadowed : found (range 5 0x1000000000000 ∷ range ipv4_zero ipv4_zero ∷ []) (ipv4_zero + 1) ≡ false
unfolding search sort_items insertion_sort insert exist_in
shadowed = refl

-- The two families do not mix in a range.
mixed : check_ip_pair (Ip.ip4 0) (Ip.ip6 0) ≡ some IpError.mixed_families
unfolding check_ip_pair
mixed = refl
