-- ===== src/Common/Text.antt =====
-- Byte strings, with the tests that Go's `==` and `bytes.Compare` make on them.
use Prim.Native.Nat.{ℕ, zero, suc, ◌+◌, ◌-◌, ◌*◌, ◌/◌, ◌%◌, ◌<◌}
use mathlib.Core.Path.{◌∙◌}
use mathlib.Core.Option.{Option, none, some}
use Prim.Native.Char.{code}
use Prim.Native.String.{String}
use mathlib.Core.Path.{◌≡◌, refl}
use mathlib.Core.Logic.{◌↔◌, ◌⊎◌, inl, inr}
use mathlib.Core.Bool.{Bool, true, false, ◌&&◌, ◌||◌}
use mathlib.Core.List.{List, [], ◌∷◌, ◌++◌}
use native.Mathlib.Omega.{arith}
use bfe.Common.Tests.{◌==◌, ltb, leb, if◌then◌else◌, Bool-cases}

abbrev pub Bytes : Type 0
Bytes = List ℕ

-- The code points of a text: its bytes, if it is ASCII.
abbrev pub codes : String → Bytes
codes String.[] = []
codes (String.◌∷◌ c s) = code c ∷ codes s

unfoldable pub bytes_eq : Bytes → Bytes → Bool
bytes_eq [] [] = true
bytes_eq [] (y ∷ ys) = false
bytes_eq (x ∷ xs) [] = false
bytes_eq (x ∷ xs) (y ∷ ys) = x == y && bytes_eq xs ys

-- a <= b in the lexicographic order.
unfoldable pub bytes_le : Bytes → Bytes → Bool
bytes_le [] ys = true
bytes_le (x ∷ xs) [] = false
bytes_le (x ∷ xs) (y ∷ ys) = ltb x y || (x == y && bytes_le xs ys)

pub bytes_eq→eq : (a b : Bytes) → bytes_eq a b ≡ true → a ≡ b
unfolding bytes_eq
bytes_eq→eq [] [] h = refl
bytes_eq→eq [] (y ∷ ys) h = ground arith
bytes_eq→eq (x ∷ xs) [] h = ground arith
bytes_eq→eq (x ∷ xs) (y ∷ ys) h = ground (arith, bytes_eq→eq xs ys)

pub bytes_eq_refl : (a : Bytes) → bytes_eq a a ≡ true
unfolding bytes_eq
bytes_eq_refl [] = refl
bytes_eq_refl (x ∷ xs) = ground (arith, bytes_eq_refl xs)

pub bytes_eq_iff : (a b : Bytes) → (bytes_eq a b ≡ true) ↔ (a ≡ b)
bytes_eq_iff a b = (bytes_eq→eq a b, λ e. ground (arith, bytes_eq_refl a))

pub bytes_le_refl : (a : Bytes) → bytes_le a a ≡ true
unfolding bytes_le
bytes_le_refl [] = refl
bytes_le_refl (x ∷ xs) = ground (arith, bytes_le_refl xs)

pub bytes_le_trans :
    (a b c : Bytes) → bytes_le a b ≡ true → bytes_le b c ≡ true → bytes_le a c ≡ true
unfolding bytes_le
bytes_le_trans [] b c h k = refl
bytes_le_trans (x ∷ xs) [] c h k = ground arith
bytes_le_trans (x ∷ xs) (y ∷ ys) [] h k = ground arith
bytes_le_trans (x ∷ xs) (y ∷ ys) (z ∷ zs) h k = ground (arith, bytes_le_trans xs ys zs)

pub bytes_le_total : (a b : Bytes) → (bytes_le a b ≡ true) ⊎ (bytes_le b a ≡ true)
unfolding bytes_le
bytes_le_total [] b = inl refl
bytes_le_total (x ∷ xs) [] = inr refl
bytes_le_total (x ∷ xs) (y ∷ ys) = ground (arith, bytes_le_total xs ys)

pub bytes_le_antisym : (a b : Bytes) → bytes_le a b ≡ true → bytes_le b a ≡ true → a ≡ b
unfolding bytes_le
bytes_le_antisym [] [] h k = refl
bytes_le_antisym [] (y ∷ ys) h k = ground arith
bytes_le_antisym (x ∷ xs) [] h k = ground arith
bytes_le_antisym (x ∷ xs) (y ∷ ys) h k = ground (arith, bytes_le_antisym xs ys)

-- strings.SplitN(s, sep, 2), for a sep of one byte: what stands before it and behind it.
unfoldable pub split_two : ℕ → Bytes → Option (Bytes × Bytes)
split_two sep [] = none
split_two sep (c ∷ cs) =
    if c == sep
    then some ([], cs)
    else elim (split_two sep cs) [ none ↦ none | some (a, b) ↦ some (c ∷ a, b) ]

-- strconv.Itoa on a number that is not negative. The fuel bounds the number of digits.
pub decimal_loop : ℕ → ℕ → Bytes → Bytes
decimal_loop zero n out = out
decimal_loop (suc f) n out =
    let rest = decimal_loop f (n / 10) ((n % 10 + 48) ∷ out) in
    if ltb n 10 then (n + 48) ∷ out else rest

unfoldable pub decimal : ℕ → Bytes
unfolding decimal_loop
decimal n = decimal_loop (n + 1) n []

-- The byte does not stand in the text.
abbrev pub Lacks : ℕ → Bytes → Type 0
Lacks c [] = Unit
Lacks c (d ∷ ds) = ((d == c) ≡ false) × Lacks c ds

pub split_two-append :
    (sep : ℕ) (a b : Bytes) → Lacks sep a → split_two sep (a ++ sep ∷ b) ≡ some (a, b)
unfolding split_two
split_two-append sep [] b h = ground arith
split_two-append sep (c ∷ a) b h = rw (h.0, split_two-append sep a b h.1) refl

-- strconv.ParseUint(s, 10, 64), on the digits after those that give n.
unfoldable pub parse_digits : ℕ → Bytes → Option ℕ
parse_digits n [] = if ltb n 0x10000000000000000 then some n else none
parse_digits n (c ∷ cs) =
    let rest = parse_digits (n * 10 + (c - 48)) cs in if leb 48 c && leb c 57 then rest else none

unfoldable pub parse_uint : Bytes → Option ℕ
unfolding parse_digits
parse_uint [] = none
parse_uint (c ∷ cs) = parse_digits 0 (c ∷ cs)

-- A digit behind a number.
parse_digit :
    (d m n : ℕ) (out : Bytes)
    → m * 10 + d ≡ n
    → d < 10
    → parse_digits m ((d + 48) ∷ out) ≡ parse_digits n out
unfolding parse_digits
parse_digit d m n out e h =
    let t : (leb 48 (d + 48) && leb (d + 48) 57) ≡ true = ground arith in
    let u : m * 10 + (d + 48 - 48) ≡ n = omega (arith, e) in rw (t, u) refl

parse_digits-decimal_loop :
    (f n : ℕ) (out : Bytes) → n < f → parse_digits 0 (decimal_loop f n out) ≡ parse_digits n out
unfolding decimal_loop
parse_digits-decimal_loop zero n out h = absurd (omega arith)
parse_digits-decimal_loop (suc f) n out h = elim (Bool-cases (ltb n 10)) [
  | inl e ↦ rw e (parse_digit n 0 n out (omega arith) (ground arith))
  | inr e ↦ rw e (
      parse_digits-decimal_loop f (n / 10) ((n % 10 + 48) ∷ out) (ground arith)
      ∙ parse_digit (n % 10) (n / 10) n out (omega arith) (omega arith))
]

-- A text of digits, and at least one.
abbrev pub AreDigits : Bytes → Type 0
AreDigits [] = Unit
AreDigits (c ∷ cs) = ((leb 48 c && leb c 57) ≡ true) × AreDigits cs

decimal_loop-AreDigits : (f n : ℕ) (out : Bytes) → AreDigits out → AreDigits (decimal_loop f n out)
unfolding decimal_loop
decimal_loop-AreDigits zero n out a = a
decimal_loop-AreDigits (suc f) n out a = elim (Bool-cases (ltb n 10)) [
  | inl e ↦ rw e (ground arith, a)
  | inr e ↦ rw e (decimal_loop-AreDigits f (n / 10) ((n % 10 + 48) ∷ out) (ground arith, a))
]

pub decimal-AreDigits : (n : ℕ) → AreDigits (decimal n)
unfolding decimal
decimal-AreDigits n = decimal_loop-AreDigits (n + 1) n [] tt

decimal_loop-cons :
    (f n : ℕ) (out : Bytes) → n < f → (c : ℕ) × (cs : Bytes) × (decimal_loop f n out ≡ c ∷ cs)
unfolding decimal_loop
decimal_loop-cons zero n out h = absurd (omega arith)
decimal_loop-cons (suc f) n out h = elim (Bool-cases (ltb n 10)) [
  | inl e ↦ (n + 48, out, rw e refl)
  | inr e ↦
      let (c, cs, g) = decimal_loop-cons f (n / 10) ((n % 10 + 48) ∷ out) (ground arith) in
      (c, cs, rw e g)
]

pub decimal-cons : (n : ℕ) → (c : ℕ) × (cs : Bytes) × (decimal n ≡ c ∷ cs)
unfolding decimal
decimal-cons n = decimal_loop-cons (n + 1) n [] (omega arith)

parse_decimal : (n : ℕ) → n < 0x10000000000000000 → parse_digits 0 (decimal n) ≡ some n
unfolding decimal parse_digits
parse_decimal n h = parse_digits-decimal_loop (n + 1) n [] (omega arith) ∙ (ground arith)

-- A number below 2^64 is read back from its digits.
pub parse_uint-decimal : (n : ℕ) → n < 0x10000000000000000 → parse_uint (decimal n) ≡ some n
unfolding parse_uint
parse_uint-decimal n h =
    let (c, cs, e) = decimal-cons n in let p = parse_decimal n h in rw e (rw e at p)

pub AreDigits-Lacks : (c : ℕ) (s : Bytes) → (leb 48 c && leb c 57) ≡ false → AreDigits s → Lacks c s
AreDigits-Lacks c [] h a = tt
AreDigits-Lacks c (d ∷ ds) h a = (ground (arith, a.0), AreDigits-Lacks c ds h a.1)
