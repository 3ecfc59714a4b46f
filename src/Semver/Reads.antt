-- ===== src/Semver/Reads.antt =====
-- bfe_util/semver/semver.go: what parse returns, against the text that it has read.
use bfe.Common.{
  ℕ, ◌≡◌, refl, ap, ◌∙◌, sym, true, Option-cases, Bool-cases, inl, inr, some, [], ◌∷◌, ◌++◌, arith,
  Bytes, parse_uint, ◌↔◌, ◌&&◌, leb, ◌*◌, ◌+◌, ◌-◌, AreDigits, AreDigits-Lacks, split_two-append,
  parse_digits, split_two, ◌==◌,
}
use mathlib.Core.List.{append-nil}
use bfe.Semver.{
  Version, Parsed, ok, err, is_sign, split_sign, split_three, with_patch, parse_patch, parse,
}
use bfe.Semver.RoundTrip.{
  IsMetadata, split_three-two, parse-three, parse_patch-digits, parse_patch-metadata,
}

-- The text is three numbers between dots, which are those of the version in their order, and then its
-- metadata, if there is any.
pub record Reads (s : Bytes) (v : Version) : Type 0 where
  pub major_text : Bytes
  pub minor_text : Bytes
  pub patch_text : Bytes
  pub text :
      s
      ≡ major_text
        ++ (b'.' ∷ (minor_text ++ (b'.' ∷ (patch_text ++ (v.blank ++ v.build_metadata)))))
  pub major : parse_uint major_text ≡ some v.major
  pub minor : parse_uint minor_text ≡ some v.minor
  pub patch : parse_uint patch_text ≡ some v.patch
  pub metadata : IsMetadata v.blank v.build_metadata

-- The same of what stands behind the second dot.
record ReadsPatch (m n : ℕ) (s : Bytes) (v : Version) : Type 0 where
  pub patch_text : Bytes
  pub text : s ≡ patch_text ++ (v.blank ++ v.build_metadata)
  pub major : v.major ≡ m
  pub minor : v.minor ≡ n
  pub patch : parse_uint patch_text ≡ some v.patch
  pub metadata : IsMetadata v.blank v.build_metadata

-- What the code returns, if it returns a version, has the property.
Returns : (Version → Type 0) → Parsed → Type 0
Returns P (ok v) = P v
Returns P (err e) = Unit

split_two_text : (sep : ℕ) (s a b : Bytes) → split_two sep s ≡ some (a, b) → s ≡ a ++ (sep ∷ b)
unfolding split_two
split_two_text sep [] a b h = cc
split_two_text sep (c ∷ cs) a b h = elim (Bool-cases (c == sep)) [
  | inl e ↦ let k = rw e at h in let same : c ≡ sep = ground (arith, e) in cc
  | inr e ↦ elim (Option-cases (split_two sep cs)) [
    | inl f ↦ let k = rw (e, f) at h in cc
    | inr ((a', b'), f) ↦ let k = rw (e, f) at h in let t = split_two_text sep cs a' b' f in cc
  ]
]

split_sign_text :
    (x a : Bytes) (s : ℕ) (b : Bytes)
    → split_sign x ≡ some (a, s, b)
    → (x ≡ a ++ (s ∷ b)) × (is_sign s ≡ true)
unfolding split_sign
split_sign_text [] a s b h = cc
split_sign_text (c ∷ cs) a s b h = elim (Bool-cases (is_sign c)) [
  | inl e ↦ let k = rw e at h in (cc, ground (arith, e, k))
  | inr e ↦ elim (Option-cases (split_sign cs)) [
    | inl f ↦ let k = rw (e, f) at h in cc
    | inr ((a', s', b'), f) ↦
        let k = rw (e, f) at h in
        let (t, u) = split_sign_text cs a' s' b' f in (cc, ground (arith, k, u))
  ]
]

module _ (m n : ℕ) where
  with_patch-Reads :
      (x p blank md : Bytes)
      → x ≡ p ++ (blank ++ md)
      → IsMetadata blank md
      → Returns (ReadsPatch m n x) (with_patch m n p blank md)
  unfolding Returns with_patch
  with_patch-Reads x p blank md t d = elim (Option-cases (parse_uint p)) [
    | inl e ↦ rw (with_patch, e) tt
    | inr (k, e) ↦
        rw (with_patch, e)
          (record { patch_text = p; text = t; major = refl; minor = refl; patch = e; metadata = d })
  ]

  parse_patch-Reads : (x : Bytes) → Returns (ReadsPatch m n x) (parse_patch m n x)
  unfolding parse_patch
  parse_patch-Reads x = elim (Option-cases (split_sign x)) [
    | inl e ↦ rw (parse_patch, e) (with_patch-Reads x x [] [] (sym (append-nil x)) tt)
    | inr (([], s, b), e) ↦ rw (parse_patch, e) (with_patch-Reads x x [] [] (sym (append-nil x)) tt)
    | inr ((c ∷ cs, s, b), e) ↦
        let (t, u) = split_sign_text x (c ∷ cs) s b e in
        rw (parse_patch, e) (with_patch-Reads x (c ∷ cs) (s ∷ []) b t u)
  ]

split_three_text :
    (s a b p : Bytes) → split_three s ≡ some (a, b, p) → s ≡ a ++ (b'.' ∷ (b ++ (b'.' ∷ p)))
unfolding split_three
split_three_text s a b p h = elim (Option-cases (split_two b'.' s)) [
  | inl e ↦ let k = rw (split_three, e) at h in cc
  | inr ((a', rest), e) ↦ elim (Option-cases (split_two b'.' rest)) [
    | inl f ↦ let k = rw (split_three, e, f) at h in cc
    | inr ((b', p'), f) ↦
        let k = rw (split_three, e, f) at h in
        let t = split_two_text b'.' s a' rest e in let u = split_two_text b'.' rest b' p' f in cc
  ]
]

joined :
    (s a b p : Bytes) (m n : ℕ) (v : Version)
    → s ≡ a ++ (b'.' ∷ (b ++ (b'.' ∷ p)))
    → parse_uint a ≡ some m
    → parse_uint b ≡ some n
    → ReadsPatch m n p v
    → Reads s v
joined s a b p m n v t e f r = record {
  major_text = a;
  minor_text = b;
  patch_text = r.patch_text;
  text = t ∙ ap (λ x. a ++ (b'.' ∷ (b ++ (b'.' ∷ x)))) r.text;
  major = e ∙ ap some (sym r.major);
  minor = f ∙ ap some (sym r.minor);
  patch = r.patch;
  metadata = r.metadata;
}

Returns-map :
    (P Q : Version → Type 0) (o : Parsed) → ((v : Version) → P v → Q v) → Returns P o → Returns Q o
unfolding Returns
Returns-map P Q (ok v) f p = f v p
Returns-map P Q (err e) f p = tt

parse-Returns : (s : Bytes) → Returns (Reads s) (parse s)
unfolding Returns parse
parse-Returns [] = tt
parse-Returns (c ∷ cs) = elim (Option-cases (split_three (c ∷ cs))) [
  | inl e ↦ rw (parse, e) tt
  | inr ((a, b, p), e) ↦ elim (Option-cases (parse_uint a)) [
    | inl f ↦ rw (parse, e, f) tt
    | inr (m, f) ↦ elim (Option-cases (parse_uint b)) [
      | inl g ↦ rw (parse, e, f, g) tt
      | inr (n, g) ↦
          let t = split_three_text (c ∷ cs) a b p e in
          rw (parse, e, f, g)
            (Returns-map (ReadsPatch m n p) (Reads (c ∷ cs)) (parse_patch m n p)
              (λ v. joined (c ∷ cs) a b p m n v t f g) (parse_patch-Reads m n p))
    ]
  ]
]

parse-Reads : (s : Bytes) (v : Version) → parse s ≡ ok v → Reads s v
unfolding Returns
parse-Reads s v h = let r = parse-Returns s in rw h at r

parse_digits-AreDigits : (n k : ℕ) (s : Bytes) → parse_digits n s ≡ some k → AreDigits s
unfolding parse_digits
parse_digits-AreDigits n k [] h = tt
parse_digits-AreDigits n k (c ∷ cs) h = elim (Bool-cases (leb 48 c && leb c 57)) [
  | inl e ↦ (e, parse_digits-AreDigits (n * 10 + (c - 48)) k cs (rw e at h))
  | inr e ↦ let h' = rw e at h in cc
]

parse_uint-AreDigits : (s : Bytes) (k : ℕ) → parse_uint s ≡ some k → AreDigits s
unfolding parse_uint
parse_uint-AreDigits [] k h = tt
parse_uint-AreDigits (c ∷ cs) k h = parse_digits-AreDigits 0 k (c ∷ cs) h

split_dot :
    (a b : Bytes) (k : ℕ) → parse_uint a ≡ some k → split_two b'.' (a ++ b'.' ∷ b) ≡ some (a, b)
split_dot a b k h =
    split_two-append b'.' a b (AreDigits-Lacks b'.' a refl (parse_uint-AreDigits a k h))

with_patch-number :
    (m n p : ℕ) (t blank md : Bytes)
    → parse_uint t ≡ some p
    → with_patch m n t blank md
      ≡ ok (record { major = m; minor = n; patch = p; blank = blank; build_metadata = md })
unfolding with_patch
with_patch-number m n p t blank md h = rw (with_patch, h) refl

parse_patch-text :
    (m n p : ℕ) (t blank md : Bytes)
    → parse_uint t ≡ some p
    → IsMetadata blank md
    → parse_patch m n (t ++ (blank ++ md))
      ≡ ok (record { major = m; minor = n; patch = p; blank = blank; build_metadata = md })
unfolding parse_uint
parse_patch-text m n p t [] [] h d =
    rw (append-nil t)
      (parse_patch-digits m n t (parse_uint-AreDigits t p h) ∙ with_patch-number m n p t [] [] h)
parse_patch-text m n p t [] (c ∷ cs) h d = absurd d
parse_patch-text m n p [] (s ∷ []) md h d = cc
parse_patch-text m n p (c ∷ t) (s ∷ []) md h d =
    parse_patch-metadata m n c t s md (parse_uint-AreDigits (c ∷ t) p h) d
    ∙ with_patch-number m n p (c ∷ t) (s ∷ []) md h
parse_patch-text m n p t (s ∷ u ∷ us) md h d = absurd d

Reads-parse : (s : Bytes) (v : Version) → Reads s v → parse s ≡ ok v
Reads-parse s v r =
    let p = r.patch_text ++ (v.blank ++ v.build_metadata) in
    ap parse r.text
    ∙ parse-three _ r.major_text r.minor_text p v.major v.minor
        (split_three-two _ r.major_text (r.minor_text ++ b'.' ∷ p) r.minor_text p
          (split_dot r.major_text (r.minor_text ++ b'.' ∷ p) v.major r.major)
          (split_dot r.minor_text p v.minor r.minor))
        r.major r.minor
    ∙ parse_patch-text v.major v.minor v.patch r.patch_text v.blank v.build_metadata r.patch
        r.metadata

-- parse returns a version exactly for a text that is three numbers of 64 bits between dots, which are
-- the major, the minor and the patch number of the version in this order, and behind them its sign
-- and its metadata, the whole rest of the text; without a sign nothing follows.
pub parse_iff_Reads : (s : Bytes) (v : Version) → (parse s ≡ ok v) ↔ Reads s v
parse_iff_Reads s v = (parse-Reads s v, Reads-parse s v)
