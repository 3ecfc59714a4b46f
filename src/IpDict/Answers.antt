-- ===== src/IpDict/Answers.antt =====
-- A loaded dictionary finds what the lines of its file say.
use mathlib.Core.List.{append_assoc, append-nil}
use mathlib.Core.Path.{subst}
use bfe.Common.{
  ℕ, ◌+◌, ◌<◌, ◌≡◌, refl, ◌∙◌, Bool, false, ◌&&◌, ◌||◌, not, Option, none, some, List, [], ◌∷◌,
  ◌++◌, if◌then◌else◌, ltb, Bytes, bytes_eq, Bool-cases, Option-cases, inl, inr,
}
use bfe.IpDict.{Ip, IpPair, IpSet, IpItems, to16, address_bound, new_ip_items, sort_items, search}
use bfe.IpDict.Count.{All, any_of}
use bfe.IpDict.Search.{IsSort, search-sort_items}
use bfe.IpDict.Load.{
  MetaInfo, IpNet, LoadError, trim, is_skipped, check_line, ip_equal, insert_line, finish, Loaded,
  loaded, max_line_exceeded, not_loaded, load_lines, check_and_load, over, cut, is_empty,
}
use bfe.IpDict.Entries.{any_entry, IsPlain, Tracks, insert_line-Tracks}

module _ (parse_ip : Bytes → Option Ip) (parse_cidr : Bytes → Option IpNet) where
  -- The addresses of the lines that are neither comments nor empty.
  unfoldable pub file_entries : List Bytes → List (Ip × Ip)
  file_entries [] = []
  file_entries (raw ∷ lines) =
      let rest = file_entries lines in
      if is_skipped (trim raw)
      then rest
      else elim (check_line parse_ip parse_cidr (trim raw)) [ none ↦ rest | some r ↦ r ∷ rest ]

  module _ {S : Type 0} (set : IpSet S) (sort : List IpPair → List IpPair) where
    abbrev load : Option ℕ → MetaInfo → Bool → ℕ → ℕ → ℕ → IpItems S → List Bytes → Loaded S
    load = load_lines parse_ip parse_cidr set sort

    -- What has been loaded, before it is sorted.
    abbrev Ends : MetaInfo → List (Ip × Ip) → IpItems S → Type 0
    Ends info entries u =
        (t : IpItems S) × Tracks set t entries × (u ≡ finish parse_ip parse_cidr set sort info t)

    not_loaded_not : (e : LoadError) (u : IpItems S) → not_loaded e ≡ loaded u → ⊥
    not_loaded_not e u h = cc

    exceeded_not : (t u : IpItems S) → max_line_exceeded t ≡ loaded u → ⊥
    exceeded_not t u h = cc

    none_not : (u : IpItems S) → ◌≡◌ {A = Option (IpItems S)} none (some u) → ⊥
    none_not u h = cc

    some_same : (t u : IpItems S) → ◌≡◌ {A = Option (IpItems S)} (some t) (some u) → t ≡ u
    some_same t u h = cc

    loaded_same : (t u : IpItems S) → loaded t ≡ loaded u → u ≡ t
    loaded_same t u h = cc

    load_nil :
        (max_line : Option ℕ) (info : MetaInfo) (scan_ok : Bool) (singles pairs count : ℕ)
        (t u : IpItems S)
        → load max_line info scan_ok singles pairs count t [] ≡ loaded u
        → u ≡ finish parse_ip parse_cidr set sort info t
    unfolding load_lines
    load_nil max_line info scan_ok singles pairs count t u h = elim (Bool-cases scan_ok) [
      | inl e ↦ loaded_same _ u (rw e at h)
      | inr e ↦ absurd (not_loaded_not _ u (rw e at h))
    ]

    -- A line that is loaded has been inserted, and the rest is loaded behind it.
    load_cons :
        (max_line : Option ℕ) (info : MetaInfo) (scan_ok : Bool) (singles pairs count : ℕ)
        (t u : IpItems S) (raw : Bytes) (lines : List Bytes) (r : Ip × Ip)
        → is_skipped (trim raw) ≡ false
        → check_line parse_ip parse_cidr (trim raw) ≡ some r
        → load max_line info scan_ok singles pairs count t (raw ∷ lines) ≡ loaded u
        → ((insert_line parse_ip parse_cidr set sort t r).0 ≡ none)
          × (load max_line info scan_ok
                (if ip_equal r.0 r.1 then singles + 1 else singles)
                (if ip_equal r.0 r.1 then pairs else pairs + 1)
                (count + 1)
                (insert_line parse_ip parse_cidr set sort t r).1
                lines
              ≡ loaded u)
    unfolding load_lines
    load_cons max_line info scan_ok singles pairs count t u raw lines r e f h =
        elim (Option-cases (insert_line parse_ip parse_cidr set sort t r).0) [
          | inr (x, g) ↦ absurd (not_loaded_not _ u (rw (e, f, g) at h))
          | inl g ↦
              elim (Bool-cases (
                over parse_ip parse_cidr set sort max_line (count + 1)
                || (ltb info.single_ip_num (if ip_equal r.0 r.1 then singles + 1 else singles)
                    || ltb info.pair_ip_num (if ip_equal r.0 r.1 then pairs else pairs + 1)))) [
                      | inl o ↦ absurd (exceeded_not _ u (rw (e, f, g, o) at h))
                      | inr o ↦ (g, rw (e, f, g, o) at h)
                    ]
        ]

    load_lines-Ends :
        (max_line : Option ℕ) (info : MetaInfo) (scan_ok : Bool) (singles pairs count : ℕ)
        (t u : IpItems S) (lines : List Bytes) (entries : List (Ip × Ip))
        → Tracks set t entries
        → All IsPlain (file_entries lines)
        → load max_line info scan_ok singles pairs count t lines ≡ loaded u
        → Ends info (entries ++ file_entries lines) u
    unfolding load_lines file_entries
    load_lines-Ends max_line info scan_ok singles pairs count t u [] entries v p h =
        (t, rw (append-nil entries) v, load_nil max_line info scan_ok singles pairs count t u h)
    load_lines-Ends max_line info scan_ok singles pairs count t u (raw ∷ lines) entries v p h =
        elim (Bool-cases (is_skipped (trim raw))) [
          | inl e ↦ rw e (
              load_lines-Ends max_line info scan_ok singles pairs count t u lines entries v
                (rw e at p) (rw e at h))
          | inr e ↦ elim (Option-cases (check_line parse_ip parse_cidr (trim raw))) [
            | inl f ↦ absurd (not_loaded_not _ u (rw (e, f) at h))
            | inr (r, f) ↦
                let (g, rest) =
                  load_cons max_line info scan_ok singles pairs count t u raw lines r e f h in
                let plain : All IsPlain (r ∷ file_entries lines) = rw (e, f) at p in
                let tracked =
                  insert_line-Tracks set parse_ip parse_cidr sort t entries r v plain.0 g in
                rw (e, f)
                  (subst (λ es. Ends info es u) (append_assoc entries (r ∷ []) (file_entries lines))
                    (load_lines-Ends max_line info scan_ok
                      (if ip_equal r.0 r.1 then singles + 1 else singles)
                      (if ip_equal r.0 r.1 then pairs else pairs + 1) (count + 1)
                      (insert_line parse_ip parse_cidr set sort t r).1 u lines (entries ++ r ∷ [])
                      tracked plain.1 rest))
          ]
        ]

    new-Tracks : (n : ℕ) (t : IpItems S) → new_ip_items set n ≡ some t → Tracks set t []
    unfolding new_ip_items any_entry any_of
    new-Tracks n t h = elim (Option-cases (set.new (n + 1))) [
      | inl f ↦ absurd (none_not t (rw (f, new_ip_items) at h))
      | inr (s, f) ↦
          let e = some_same _ t (rw (f, new_ip_items) at h) in
          rw (← e) (record {
            holds = set.new_holds (n + 1) s f;
            good = tt;
            same = λ ip _. let z = set.new_lem (n + 1) s f ip in rw z refl;
          })
    ]

    load-Ends :
        (max_line : Option ℕ) (info : MetaInfo) (scan_ok : Bool) (lines : List Bytes) (cur : Bytes)
        (u : IpItems S)
        → All IsPlain (file_entries lines)
        → check_and_load parse_ip parse_cidr set sort max_line (some info) scan_ok lines cur
          ≡ loaded u
        → (i : MetaInfo) × Ends i (file_entries lines) u
    unfolding check_and_load
    load-Ends max_line info scan_ok lines cur u p h =
        let i = cut parse_ip parse_cidr set sort max_line info in
        elim (Bool-cases
          (bytes_eq info.version cur && not (is_empty parse_ip parse_cidr set sort info.version))) [
            | inl e ↦ absurd (not_loaded_not _ u (rw e at h))
            | inr e ↦ elim (Option-cases (new_ip_items set i.single_ip_num)) [
              | inl f ↦ absurd (not_loaded_not _ u (rw (e, f) at h))
              | inr (t, f) ↦ (
                i,
                load_lines-Ends max_line i scan_ok 0 0 0 t u lines []
                    (new-Tracks i.single_ip_num t f) p (rw (e, f) at h),
              )
            ]
          ]

search-version :
    {S : Type 0} (set : IpSet S) (t : IpItems S) (version : Bytes) (src_ip : Ip)
    → search set (some (record t { version = version })) src_ip ≡ search set (some t) src_ip
unfolding search
search-version set t version src_ip = refl

-- For a set of single addresses that keeps its interface and any order that sort.Sort gives to equal
-- starts, a dictionary that `CheckAndLoad` returns without an error finds an address of less than
-- 2^128 exactly if it lies within the address or range of one of the file's lines, when every line
-- starts above :: and none ends at 0.0.0.0.
pub check_and_load-search :
    {S : Type 0} (parse_ip : Bytes → Option Ip) (parse_cidr : Bytes → Option IpNet) (set : IpSet S)
    (sort : List IpPair → List IpPair)
    → IsSort sort
    → (max_line : Option ℕ) (info : MetaInfo) (scan_ok : Bool) (lines : List Bytes)
      (cur_version : Bytes) (t : IpItems S)
    → All IsPlain (file_entries parse_ip parse_cidr lines)
    → check_and_load parse_ip parse_cidr set sort max_line (some info) scan_ok lines cur_version
      ≡ loaded t
    → (src_ip : Ip) (ip : ℕ) → to16 src_ip ≡ some ip
    → ip < address_bound
    → search set (some t) src_ip ≡ any_entry ip (file_entries parse_ip parse_cidr lines)
unfolding search finish
check_and_load-search parse_ip parse_cidr set sort v max_line info scan_ok lines cur t p h src_ip ip
      e b =
    let (i, (u, w, f)) =
      load-Ends parse_ip parse_cidr set sort max_line info scan_ok lines cur t p h in
    let g = search-sort_items set sort v u w.good src_ip ip e in
    rw f (search-version set (sort_items sort u) i.version src_ip ∙ g ∙ w.same ip b)
