-- ===== src/IpDict.antt =====
-- bfe_util/ipdict: ipdict.go, iptable.go and checkIPPair of ipdict_util.go, the dictionary of single
-- addresses and of ranges of addresses. A 16-byte address is the number that its bytes spell, so
-- bytes.Compare is the order of numbers. The set of single addresses is an interface, and sort.Sort
-- an argument, since Go says nothing of the order of equal elements.
pub mod Count
pub mod Ranges
pub mod Merge
pub mod Disjoint
pub mod Search
pub mod Load
pub mod Entries
pub mod Answers
pub mod HashedSet
pub mod InsertionSort
pub mod Examples
pub mod LoadExamples
use bfe.Common.{
  ℕ, zero, suc, ◌+◌, ◌-◌, ◌≡◌, ◌<◌, Bool, true, false, ◌&&◌, ◌||◌, not, Option, none, some, List,
  [], ◌∷◌, ◌++◌, map, if◌then◌else◌, ltb, leb, ◌==◌, length, take, Bytes, is_some,
}

-- net.IP, by its length: 4 bytes, 16 bytes, or any other.
pub data Ip : Type 0 where
  ip4 : ℕ → Ip
  ip6 : ℕ → Ip
  invalid : Ip

-- The 16 bytes of net.IPv4zero, the first of the IPv4 addresses.
abbrev pub ipv4_zero : ℕ
ipv4_zero = 0xffff00000000

abbrev pub ipv6_zero : ℕ
ipv6_zero = 0

unfoldable pub to16 : Ip → Option ℕ
to16 (ip4 n) = some (ipv4_zero + n)
to16 (ip6 n) = some n
to16 invalid = none

-- To4() != nil.
unfoldable pub is_v4 : Ip → Bool
is_v4 (ip4 n) = true
is_v4 (ip6 n) = leb ipv4_zero n && leb n 0xffffffffffff
is_v4 invalid = false

pub record IpPair : Type 0 where
  pub start_ip : ℕ
  pub end_ip : ℕ

abbrev pub address_bound : ℕ
address_bound = 0x100000000000000000000000000000000

-- What hash_set gives the dictionary, for 16-byte keys. `Holds s`: the set has been made by `new` and
-- changed by `add`.
pub record IpSet (S : Type 0) : Type 1 where
  pub new : ℕ → Option S
  pub exist : S → ℕ → Bool
  pub add : S → ℕ → Option S
  pub len : S → ℕ
  pub Holds : S → Type 0
  pub new_holds : (n : ℕ) (s : S) → new n ≡ some s → Holds s
  pub new_lem : (n : ℕ) (s : S) → new n ≡ some s → (k : ℕ) → exist s k ≡ false
  pub add_holds : (s s' : S) (j : ℕ) → Holds s → add s j ≡ some s' → Holds s'
  pub add_lem :
      (s s' : S) (j k : ℕ)
      → Holds s
      → add s j ≡ some s'
      → j < address_bound
      → k < address_bound
      → exist s' k ≡ (j == k || exist s k)

pub record IpItems (S : Type 0) : Type 0 where
  pub ip_set : S
  pub items : List IpPair
  pub version : Bytes

pub data IpError : Type 0 where
  invalid_start invalid_end mixed_families wrong_order invalid_ip set_full : IpError

-- The error of checkIPPair, if there is one.
unfoldable pub check_ip_pair : Ip → Ip → Option IpError
unfolding to16 is_v4
check_ip_pair start_ip end_ip = elim (to16 start_ip) [
  | none ↦ some IpError.invalid_start
  | some s ↦ elim (to16 end_ip) [
    | none ↦ some IpError.invalid_end
    | some e ↦
        if (is_v4 start_ip && not (is_v4 end_ip)) || (not (is_v4 start_ip) && is_v4 end_ip)
        then some IpError.mixed_families
        else if ltb e s
        then some IpError.wrong_order
        else none
  ]
]

abbrev cleared : IpPair
cleared = record { start_ip = ipv6_zero; end_ip = ipv6_zero }

-- The tests on endIP by which merged items are passed over.
abbrev pub is_zero : IpPair → Bool
is_zero r = r.end_ip == ipv6_zero || r.end_ip == ipv4_zero

-- The loop of checkMerge over the items between i and j.
unfoldable pub clear_items : List IpPair → List IpPair × ℕ
clear_items [] = ([], 0)
clear_items (k ∷ items) =
    let (rest, n) = clear_items items in
    if is_zero k then (k ∷ rest, n) else (cleared ∷ rest, n + 1)

-- items[i], and the items from i + 1 to j, with the number of merged ones.
pub record Merged : Type 0 where
  pub first : IpPair
  pub others : List IpPair
  pub merged_num : ℕ

-- The items between i and j are `between`.
unfoldable pub check_merge : IpPair → List IpPair → IpPair → Merged
unfolding clear_items
check_merge i between j =
    if leb i.start_ip j.end_ip
    then (let (rest, n) = clear_items between in
        record {
          first = record {
            start_ip = j.start_ip;
            end_ip = if leb i.end_ip j.end_ip then j.end_ip else i.end_ip;
          };
          others = rest ++ cleared ∷ [];
          merged_num = 1 + n;
        })
    else record { first = i; others = between ++ j ∷ []; merged_num = 0 }

-- The inner loop of mergeItems: `between` are the items after i that it has passed.
unfoldable pub merge_from : IpPair → List IpPair → List IpPair → Merged
unfolding check_merge
merge_from i between [] = record { first = i; others = between; merged_num = 0 }
merge_from i between (j ∷ items) =
    let m =
      if j.end_ip == ipv6_zero || i.end_ip == ipv4_zero
      then record { first = i; others = between ++ j ∷ []; merged_num = 0 }
      else check_merge i between j in
    let r = merge_from m.first m.others items in
    record r { merged_num = m.merged_num + r.merged_num }

-- The outer loop, for as many rounds as there are.
unfoldable pub merge_loop : ℕ → List IpPair → List IpPair × ℕ
unfolding merge_from
merge_loop zero items = (items, 0)
merge_loop (suc rounds) [] = ([], 0)
merge_loop (suc rounds) (i ∷ items) =
    let m =
      if is_zero i
      then record { first = i; others = items; merged_num = 0 }
      else merge_from i [] items in
    let (rest, n) = merge_loop rounds m.others in (m.first ∷ rest, m.merged_num + n)

unfoldable pub merge_items : List IpPair → List IpPair × ℕ
unfolding merge_loop
merge_items items = merge_loop (length items - 1) items

-- sort.Search: the least index at which the test holds, for a test that keeps holding.
unfoldable pub first_at_most : ℕ → List IpPair → Option IpPair
first_at_most ip [] = none
first_at_most ip (r ∷ items) = if leb r.start_ip ip then some r else first_at_most ip items

module _ {S : Type 0} (set : IpSet S) where
  open set use {new, exist, add, len}

  unfoldable pub new_ip_items : ℕ → Option (IpItems S)
  new_ip_items max_single_ip_num = elim (new (max_single_ip_num + 1)) [
    | none ↦ none
    | some s ↦ some (record { ip_set = s; items = []; version = [] })
  ]

  -- The error, or the new items.
  unfoldable pub insert_single : IpItems S → Ip → (Option IpError) × IpItems S
  unfolding to16
  insert_single t ip = elim (to16 ip) [
    | none ↦ (some IpError.invalid_ip, t)
    | some n ↦ elim (add t.ip_set n) [
      | none ↦ (some IpError.set_full, t)
      | some s ↦ (none, record t { ip_set = s })
    ]
  ]

  -- Length
  unfoldable pub total_length : IpItems S → ℕ
  total_length t = length t.items + len t.ip_set

  unfoldable pub search : Option (IpItems S) → Ip → Bool
  unfolding to16 first_at_most
  search none src_ip = false
  search (some t) src_ip = elim (to16 src_ip) [
    | none ↦ false
    | some ip ↦
        exist t.ip_set ip
        || elim (first_at_most ip t.items) [ none ↦ false | some r ↦ leb ip r.end_ip ]
  ]

unfoldable pub insert_pair : {S : Type 0} → IpItems S → Ip → Ip → (Option IpError) × IpItems S
unfolding check_ip_pair
insert_pair t start_ip end_ip = elim (check_ip_pair start_ip end_ip) [
  | some e ↦ (some e, t)
  | none ↦ elim (to16 start_ip) [
    | none ↦ (none, t)
    | some s ↦ elim (to16 end_ip) [
      | none ↦ (none, t)
      | some e ↦ (none, record t { items = t.items ++ (record { start_ip = s; end_ip = e }) ∷ [] })
    ]
  ]
]

-- `sort` is sort.Sort by Less, with the greatest startIP first.
unfoldable pub sort_items : {S : Type 0} → (List IpPair → List IpPair) → IpItems S → IpItems S
unfolding merge_items
sort_items sort t =
    let sorted = sort t.items in
    let (merged, merged_num) = merge_items sorted in
    record t { items = take (length merged - merged_num) (sort merged) }
