-- ===== src/IpDict/LoadExamples.antt =====
-- A dictionary that a small file is loaded into.
use bfe.Common.{
  ℕ, ◌<◌, ◌≡◌, refl, ◌≢◌, true, ◌&&◌, Option, none, some, List, [], ◌∷◌, if◌then◌else◌, leb, arith,
}
use bfe.IpDict.{address_bound, Ip, IpSet, IpItems, to16, ipv4_zero, search}
use bfe.IpDict.Load.{
  MetaInfo, IpNet, Loaded, loaded, check_line, trim, get_last_ip_address, max_line_exceeded,
  not_loaded, check_and_load,
}
use bfe.IpDict.HashedSet.{Set16, hashed_set}
use bfe.IpDict.Answers.{check_and_load-search, file_entries}
use bfe.IpDict.Entries.{any_entry, IsPlain}
use bfe.Common.{Bytes, codes, bytes_eq}
use bfe.BytePool.{new_fixed_byte_pool}
use bfe.IpDict.Count.{All}
use bfe.IpDict.Search.{}
use bfe.IpDict.InsertionSort.{insertion_sort, insertion_sort-IsSort}

-- A file of one digit for each address, and a hash set for the single ones.
unfoldable pub parse_digit : Bytes → Option Ip
parse_digit [] = none
parse_digit (c ∷ []) = if leb b'0' c && leb c b'9' then some (Ip.ip6 c) else none
parse_digit (c ∷ d ∷ ds) = none

unfoldable pub parse_none : Bytes → Option IpNet
parse_none line = none

abbrev pub hash_set : IpSet (Set16 (λ _. 7))
hash_set = hashed_set (λ _. 7)

abbrev pub file : List Bytes
file = codes "# digits" ∷ codes " 3 5" ∷ codes "7" ∷ []

abbrev pub info : MetaInfo
info = record { version = codes "1"; single_ip_num = 1; pair_ip_num = 1 }

abbrev result : Loaded (Set16 (λ _. 7))
result =
    check_and_load parse_digit parse_none hash_set (insertion_sort []) none (some info) true file []

items_of : Loaded (Set16 (λ _. 7)) → IpItems (Set16 (λ _. 7))
items_of (loaded t) = t
items_of (max_line_exceeded t) = t
items_of (not_loaded e) = record {
  ip_set = record {
    ha = [];
    ha_size = 0;
    np = record {
      array = [];
      free_node = none;
      capacity = 0;
      elem_num = 0;
      pool = record { buf = []; elem_size = 0; max_elem_num = 0 };
    };
  };
  items = [];
  version = [];
}

result-loaded : result ≡ loaded (items_of result)
unfolding check_and_load items_of parse_digit parse_none hashed_set insertion_sort bytes_eq
    new_fixed_byte_pool
result-loaded = refl

IsPlain-entry : (m n : ℕ) → 0 < m → m < address_bound → n ≢ ipv4_zero → IsPlain (Ip.ip6 m, Ip.ip6 n)
unfolding to16
IsPlain-entry m n h k ne = (λ s e. ground arith, λ e f. ground arith)

pub plain : All IsPlain (file_entries parse_digit parse_none file)
unfolding file_entries parse_digit parse_none check_line trim
plain = (
  IsPlain-entry b'3' b'5' (omega arith) (omega arith) (omega arith),
  (IsPlain-entry b'7' b'7' (omega arith) (omega arith) (omega arith), tt),
)

check_and_load-search_example :
    search hash_set (some (items_of result)) (Ip.ip6 b'4')
    ≡ any_entry b'4' (file_entries parse_digit parse_none file)
unfolding check_and_load items_of parse_digit parse_none hashed_set insertion_sort file_entries to16
check_and_load-search_example =
    check_and_load-search parse_digit parse_none hash_set (insertion_sort []) insertion_sort-IsSort
      none info true file [] (items_of result) plain result-loaded (Ip.ip6 b'4') b'4' refl
      (omega arith)

-- The network 64:ff9b::/96 has no last address: its bytes begin with zeros, which are left out.
nat64 :
    get_last_ip_address (record { ip = Ip.ip6 0x64ff9b000000000000000000000000; ones = 96 })
    ≡ Ip.invalid
unfolding get_last_ip_address
nat64 = refl
