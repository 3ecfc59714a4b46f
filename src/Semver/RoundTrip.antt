-- ===== src/Semver/RoundTrip.antt =====
-- bfe_util/semver/semver.go: what String writes, parse reads.
use bfe.Common.{
  ℕ, ◌≡◌, ◌<◌, refl, true, false, ◌∙◌, none, some, [], ◌∷◌, ◌++◌, arith, Bytes, parse_uint, decimal,
  split_two, split_two-append, decimal-AreDigits, decimal-cons, parse_uint-decimal, AreDigits,
  AreDigits-Lacks, if◌then◌else◌,
}
use mathlib.Core.List.{append-nil}
use bfe.Semver.{
  Version, ok, is_sign, is_empty, split_sign, split_three, with_patch, parse_patch, parse,
  to_string,
}

-- A number of 64 bits.
abbrev pub IsUint64 : ℕ → Type 0
IsUint64 n = n < 0x10000000000000000

-- Metadata stands behind a sign, and nothing where there is no sign.
abbrev pub IsMetadata : Bytes → Bytes → Type 0
IsMetadata [] [] = Unit
IsMetadata [] (c ∷ cs) = ⊥
IsMetadata (s ∷ []) md = is_sign s ≡ true
IsMetadata (s ∷ t ∷ ts) md = ⊥

unfoldable pub IsVersion : Version → Type 0
IsVersion v =
    IsUint64 v.major × IsUint64 v.minor × IsUint64 v.patch × IsMetadata v.blank v.build_metadata

pub split_sign-digits : (a : Bytes) → AreDigits a → split_sign a ≡ none
unfolding split_sign
split_sign-digits [] h = refl
split_sign-digits (c ∷ a) h =
    let n : is_sign c ≡ false = ground (arith, h.0) in rw (n, split_sign-digits a h.1) refl

split_sign-append :
    (a : Bytes) (s : ℕ) (b : Bytes)
    → AreDigits a
    → is_sign s ≡ true
    → split_sign (a ++ s ∷ b) ≡ some (a, s, b)
unfolding split_sign
split_sign-append [] s b h e = rw e refl
split_sign-append (c ∷ a) s b h e =
    let n : is_sign c ≡ false = ground (arith, h.0) in rw (n, split_sign-append a s b h.1 e) refl

split_two-decimal :
    (n : ℕ) (b : Bytes) → split_two b'.' (decimal n ++ b'.' ∷ b) ≡ some (decimal n, b)
split_two-decimal n b =
    split_two-append b'.' (decimal n) b
      (AreDigits-Lacks b'.' (decimal n) refl (decimal-AreDigits n))

pub split_three-two :
    (s a rest b c : Bytes)
    → split_two b'.' s ≡ some (a, rest)
    → split_two b'.' rest ≡ some (b, c)
    → split_three s ≡ some (a, b, c)
unfolding split_three
split_three-two s a rest b c e f = rw (split_three, e, f) refl

split_three-decimal :
    (m n : ℕ) (p : Bytes)
    → split_three (decimal m ++ (b'.' ∷ (decimal n ++ b'.' ∷ p))) ≡ some (decimal m, decimal n, p)
split_three-decimal m n p =
    split_three-two (decimal m ++ (b'.' ∷ (decimal n ++ b'.' ∷ p))) (decimal m)
      (decimal n ++ b'.' ∷ p) (decimal n) p (split_two-decimal m (decimal n ++ b'.' ∷ p))
      (split_two-decimal n p)

-- The error of an empty text aside, parse is what it does with the three parts.
pub parse-three :
    (s a b p : Bytes) (m n : ℕ)
    → split_three s ≡ some (a, b, p)
    → parse_uint a ≡ some m
    → parse_uint b ≡ some n
    → parse s ≡ parse_patch m n p
unfolding parse split_three split_two
parse-three [] a b p m n e f g = ground arith
parse-three (c ∷ cs) a b p m n e f g = rw (parse, e, f, g) refl

with_patch-decimal :
    (m n p : ℕ) (blank md : Bytes)
    → IsUint64 p
    → with_patch m n (decimal p) blank md
      ≡ ok (record { major = m; minor = n; patch = p; blank = blank; build_metadata = md })
unfolding with_patch
with_patch-decimal m n p blank md h = rw (with_patch, parse_uint-decimal p h) refl

-- Without a sign, the digits are the whole of the text.
pub parse_patch-digits :
    (m n : ℕ) (s : Bytes) → AreDigits s → parse_patch m n s ≡ with_patch m n s [] []
unfolding parse_patch
parse_patch-digits m n s h = rw (parse_patch, split_sign-digits s h) refl

pub parse_patch-metadata :
    (m n : ℕ) (c : ℕ) (cs : Bytes) (s : ℕ) (md : Bytes)
    → AreDigits (c ∷ cs)
    → is_sign s ≡ true
    → parse_patch m n ((c ∷ cs) ++ s ∷ md) ≡ with_patch m n (c ∷ cs) (s ∷ []) md
unfolding parse_patch
parse_patch-metadata m n c cs s md h e = rw (parse_patch, split_sign-append (c ∷ cs) s md h e) refl

parse_patch-signed :
    (m n p : ℕ) (s : ℕ) (md : Bytes)
    → is_sign s ≡ true
    → parse_patch m n (decimal p ++ s ∷ md) ≡ with_patch m n (decimal p) (s ∷ []) md
parse_patch-signed m n p s md e =
    let (c, cs, g) = decimal-cons p in
    let a = decimal-AreDigits p in rw g (parse_patch-metadata m n c cs s md (rw g at a) e)

parse_patch-decimal :
    (m n p : ℕ) (blank md : Bytes)
    → IsUint64 p
    → IsMetadata blank md
    → parse_patch m n (decimal p ++ (if is_empty blank then [] else blank ++ md))
      ≡ ok (record { major = m; minor = n; patch = p; blank = blank; build_metadata = md })
parse_patch-decimal m n p [] [] h d =
    rw (append-nil (decimal p))
      (parse_patch-digits m n (decimal p) (decimal-AreDigits p) ∙ with_patch-decimal m n p [] [] h)
parse_patch-decimal m n p [] (c ∷ cs) h d = absurd d
parse_patch-decimal m n p (s ∷ []) md h d =
    parse_patch-signed m n p s md d ∙ with_patch-decimal m n p (s ∷ []) md h
parse_patch-decimal m n p (s ∷ t ∷ ts) md h d = absurd d

-- A version of 64-bit numbers, whose metadata stands behind one sign, is what parse reads from
-- the text that String writes for it.
pub parse-to_string : (v : Version) → IsVersion v → parse (to_string v) ≡ ok v
unfolding to_string IsVersion
parse-to_string v (i, j, k, d) =
    let m = decimal v.major in
    let n = decimal v.minor in
    let p = decimal v.patch ++ (if is_empty v.blank then [] else v.blank ++ v.build_metadata) in
    parse-three (to_string v) m n p v.major v.minor (split_three-decimal v.major v.minor p)
      (parse_uint-decimal v.major i) (parse_uint-decimal v.minor j)
    ∙ parse_patch-decimal v.major v.minor v.patch v.blank v.build_metadata k d
