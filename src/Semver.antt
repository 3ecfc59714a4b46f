-- ===== src/Semver.antt =====
-- bfe_util/semver/semver.go: versions of three numbers with metadata behind a '-' or a '+'. The
-- texts are ASCII.
pub mod Examples
pub mod RoundTrip
pub mod Reads
use bfe.Common.{
  ℕ, ◌≡◌, ◌<◌, Bool, true, false, ◌&&◌, ◌||◌, Option, none, some, List, [], ◌∷◌, ◌++◌,
  if◌then◌else◌, ltb, ◌==◌, Bytes, split_two, parse_uint, decimal,
}
use bfe.Common.Int.{ℤ, pos, negsuc, eqb_ℤ}

pub data VersionError : Type 0 where
  semver_empty semver_format not_a_number : VersionError

pub record Version : Type 0 where
  pub major : ℕ
  pub minor : ℕ
  pub patch : ℕ
  pub blank : Bytes
  pub build_metadata : Bytes

pub data Parsed : Type 0 where
  ok : Version → Parsed
  err : VersionError → Parsed

abbrev pub is_sign : ℕ → Bool
is_sign c = c == b'-' || c == b'+'

-- What stands before the first sign, the sign, and what stands behind it.
unfoldable pub split_sign : Bytes → Option (Bytes × ℕ × Bytes)
split_sign [] = none
split_sign (c ∷ cs) =
    if is_sign c
    then some ([], c, cs)
    else elim (split_sign cs) [ none ↦ none | some (a, s, b) ↦ some (c ∷ a, s, b) ]

-- strings.SplitN(ver, ".", 3), where there are three parts.
unfoldable pub split_three : Bytes → Option (Bytes × Bytes × Bytes)
unfolding split_two
split_three ver = elim (split_two b'.' ver) [
  | none ↦ none
  | some (a, rest) ↦ elim (split_two b'.' rest) [ none ↦ none | some (b, c) ↦ some (a, b, c) ]
]

-- The patch number of a version that has the other two.
unfoldable pub with_patch : ℕ → ℕ → Bytes → Bytes → Bytes → Parsed
unfolding parse_uint
with_patch major minor patch blank build_metadata = elim (parse_uint patch) [
  | none ↦ err not_a_number
  | some p ↦ ok (record {
    major = major;
    minor = minor;
    patch = p;
    blank = blank;
    build_metadata = build_metadata;
  })
]

-- A sign at the very front leaves the text whole.
unfoldable pub parse_patch : ℕ → ℕ → Bytes → Parsed
unfolding split_sign with_patch
parse_patch major minor patch_str = elim (split_sign patch_str) [
  | none ↦ with_patch major minor patch_str [] []
  | some ([], s, b) ↦ with_patch major minor patch_str [] []
  | some (c ∷ cs, s, b) ↦ with_patch major minor (c ∷ cs) (s ∷ []) b
]

unfoldable pub parse : Bytes → Parsed
unfolding split_three parse_patch
parse [] = err semver_empty
parse (c ∷ cs) = elim (split_three (c ∷ cs)) [
  | none ↦ err semver_format
  | some (a, b, p) ↦ elim (parse_uint a) [
    | none ↦ err not_a_number
    | some major ↦ elim (parse_uint b) [
      | none ↦ err not_a_number
      | some minor ↦ parse_patch major minor p
    ]
  ]
]

abbrev pub is_empty : Bytes → Bool
is_empty [] = true
is_empty (c ∷ cs) = false

-- Version.String
unfoldable pub to_string : Version → Bytes
unfolding decimal
to_string v =
    let tail = if is_empty v.blank then [] else v.blank ++ v.build_metadata in
    decimal v.major ++ (b'.' ∷ (decimal v.minor ++ (b'.' ∷ (decimal v.patch ++ tail))))

unfoldable pub compare_number : ℕ → ℕ → ℤ
compare_number a b = if a == b then pos 0 else if ltb b a then pos 1 else negsuc 0

unfoldable pub compare_major : Version → Version → ℤ
unfolding compare_number
compare_major v x = compare_number v.major x.major

unfoldable pub compare_minor : Version → Version → ℤ
unfolding compare_number
compare_minor v x = compare_number v.minor x.minor

unfoldable pub compare_patch : Version → Version → ℤ
unfolding compare_number
compare_patch v x = compare_number v.patch x.patch

unfoldable pub equal : Version → Version → Bool
unfolding compare_major compare_minor compare_patch
equal v x =
    eqb_ℤ (compare_major v x) (pos 0)
    && eqb_ℤ (compare_minor v x) (pos 0)
    && eqb_ℤ (compare_patch v x) (pos 0)
