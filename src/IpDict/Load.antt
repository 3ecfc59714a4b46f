-- ===== src/IpDict/Load.antt =====
-- bfe_util/ipdict/txt_load/txt_load.go: from the lines of a text file to a dictionary. net.ParseIP and
-- net.ParseCIDR are parameters; so are the meta information and the lines, as they are read from
-- the file. A limit of -1 lines is none.
use bfe.Common.{
  ℕ, ◌+◌, ◌-◌, ◌%◌, Bool, true, false, ◌&&◌, ◌||◌, not, Option, none, some, List, [], ◌∷◌,
  if◌then◌else◌, ltb, leb, ◌==◌, Bytes, bytes_eq, split_two,
}
use mathlib.Core.List.{reverse}
use Prim.Native.Nat.{◌^◌}
use bfe.IpDict.{
  Ip, ip4, ip6, invalid, IpPair, IpSet, IpItems, IpError, new_ip_items, insert_single, insert_pair,
  sort_items,
}

pub record MetaInfo : Type 0 where
  pub version : Bytes
  pub single_ip_num : ℕ
  pub pair_ip_num : ℕ

-- net.IPNet: the address and the number of ones of its mask.
pub record IpNet : Type 0 where
  pub ip : Ip
  pub ones : ℕ

abbrev is_blank : ℕ → Bool
is_blank c = c == b' ' || c == b'\t'

unfoldable pub trim_left : Bytes → Bytes
trim_left [] = []
trim_left (c ∷ cs) = if is_blank c then trim_left cs else c ∷ cs

-- strings.Trim(s, " \t")
unfoldable pub trim : Bytes → Bytes
unfolding trim_left
trim s = reverse (trim_left (reverse (trim_left s)))

-- A line that the separator does not split gives both addresses.
unfoldable pub segments : Option (Bytes × Bytes) → Bytes → Bytes × Bytes
unfolding trim
segments none line = (line, line)
segments (some (a, b)) line = (trim a, trim b)

-- big.Int.Bytes(), which has no leading zeros, as an address.
unfoldable pub ip_of_int : ℕ → Ip
ip_of_int n =
    if leb (2 ^ 120) n then ip6 n else if leb (2 ^ 24) n && ltb n (2 ^ 32) then ip4 n else invalid

unfoldable pub get_last_ip_address : IpNet → Ip
unfolding ip_of_int
get_last_ip_address net = elim net.ip [
  | ip4 n ↦ ip4 ((n + 2 ^ (32 - net.ones) % 2 ^ 32 + 2 ^ 32 - 1) % 2 ^ 32)
  | ip6 n ↦ ip_of_int (n + 2 ^ (128 - net.ones) - 1)
  | invalid ↦ invalid
]

-- bytes.Equal, on a first address that is valid.
abbrev pub ip_equal : Ip → Ip → Bool
ip_equal (ip4 m) (ip4 n) = m == n
ip_equal (ip6 m) (ip6 n) = m == n
ip_equal (ip4 m) (ip6 n) = false
ip_equal (ip4 m) invalid = false
ip_equal (ip6 m) (ip4 n) = false
ip_equal (ip6 m) invalid = false
ip_equal invalid n = false

-- A comment, or nothing.
abbrev pub is_skipped : Bytes → Bool
is_skipped [] = true
is_skipped (c ∷ cs) = c == b'#'

pub data LoadError : Type 0 where
  bad_file no_need_update no_items bad_line scan_failed : LoadError
  not_inserted : IpError → LoadError

pub data Loaded (S : Type 0) : Type 0 where
  loaded : IpItems S → Loaded S
  max_line_exceeded : IpItems S → Loaded S
  not_loaded : LoadError → Loaded S

module _ (parse_ip : Bytes → Option Ip) (parse_cidr : Bytes → Option IpNet) where
  unfoldable pub check_split : Bytes → ℕ → Option (Ip × Ip)
  unfolding split_two segments
  check_split line sep =
      let (start, end) = segments (split_two sep line) line in
      elim (parse_ip start) [
        | none ↦ none
        | some s ↦ elim (parse_ip end) [ none ↦ none | some e ↦ some (s, e) ]
      ]

  unfoldable pub check_cidr : Bytes → Option (Ip × Ip)
  unfolding get_last_ip_address
  check_cidr line = elim (parse_cidr line) [
    | none ↦ none
    | some net ↦ some (net.ip, get_last_ip_address net)
  ]

  unfoldable pub check_line : Bytes → Option (Ip × Ip)
  unfolding check_cidr check_split
  check_line line = elim (check_cidr line) [
    | some r ↦ some r
    | none ↦ elim (check_split line b' ') [ some r ↦ some r | none ↦ check_split line b'\t' ]
  ]

  module _ {S : Type 0} (set : IpSet S) (sort : List IpPair → List IpPair) where
    -- The insert that a line asks for.
    unfoldable pub insert_line : IpItems S → Ip × Ip → (Option IpError) × IpItems S
    unfolding insert_single insert_pair
    insert_line t (start_ip, end_ip) =
        if ip_equal start_ip end_ip
        then insert_single set t start_ip
        else insert_pair t start_ip end_ip

    unfoldable pub finish : MetaInfo → IpItems S → IpItems S
    unfolding sort_items
    finish info t = record (sort_items sort t) { version = info.version }

    -- A bound that is reached by one more line.
    abbrev pub over : Option ℕ → ℕ → Bool
    over none n = false
    over (some max_line) n = ltb max_line n

    -- The scan: the numbers of single addresses, of ranges and of lines so far. `scan_ok`: the scanner
    -- has met no error.
    unfoldable pub load_lines :
        Option ℕ → MetaInfo → Bool → ℕ → ℕ → ℕ → IpItems S → List Bytes → Loaded S
    unfolding trim check_line insert_line finish
    load_lines max_line info scan_ok singles pairs count t [] =
        if scan_ok then loaded (finish info t) else not_loaded scan_failed
    load_lines max_line info scan_ok singles pairs count t (raw ∷ lines) =
        let line = trim raw in
        let skipped = load_lines max_line info scan_ok singles pairs count t lines in
        if is_skipped line then skipped else elim (check_line line) [
          | none ↦ not_loaded bad_line
          | some r ↦
              let (e, t') = insert_line t r in
              let single = ip_equal r.0 r.1 in
              let singles' = if single then singles + 1 else singles in
              let pairs' = if single then pairs else pairs + 1 in
              let rest = load_lines max_line info scan_ok singles' pairs' (count + 1) t' lines in
              elim e [
                | some e ↦ not_loaded (not_inserted e)
                | none ↦
                    if over max_line (count + 1)
                      || (ltb info.single_ip_num singles' || ltb info.pair_ip_num pairs')
                    then max_line_exceeded (finish info t')
                    else rest
              ]
        ]

    -- The numbers that the dictionary is made for.
    abbrev pub cut : Option ℕ → MetaInfo → MetaInfo
    cut none info = info
    cut (some max_line) info =
        if ltb max_line (info.single_ip_num + info.pair_ip_num)
        then record info { single_ip_num = max_line; pair_ip_num = max_line }
        else info

    abbrev pub is_empty : Bytes → Bool
    is_empty [] = true
    is_empty (c ∷ cs) = false

    -- `info` is what getFileInfo returns.
    unfoldable pub check_and_load :
        Option ℕ → Option MetaInfo → Bool → List Bytes → Bytes → Loaded S
    unfolding load_lines new_ip_items
    check_and_load max_line none scan_ok lines cur_version = not_loaded bad_file
    check_and_load max_line (some info) scan_ok lines cur_version =
        if bytes_eq info.version cur_version && not (is_empty info.version)
        then not_loaded no_need_update
        else elim (new_ip_items set (cut max_line info).single_ip_num) [
          | none ↦ not_loaded no_items
          | some t ↦ load_lines max_line (cut max_line info) scan_ok 0 0 0 t lines
        ]
