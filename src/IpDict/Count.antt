-- ===== src/IpDict/Count.antt =====
-- Counting over the ranges, by a test: what any order of the same ranges agrees on.
use bfe.Common.{
  ℕ, suc, ◌+◌, ◌≤◌, ◌<◌, ◌≡◌, refl, Bool, true, false, ◌||◌, ◌&&◌, not, List, [], ◌∷◌, ◌++◌,
  if◌then◌else◌, ltb, leb, ◌==◌, arith, length, ◌≢◌, Bool-cases, inl, inr,
}
use bfe.IpDict.{IpPair, ipv4_zero}

abbrev pub All {ℓ κ} : {A : Type ℓ} → (A → Type κ) → List A → Type κ
All P [] = Unit
All P (x ∷ xs) = P x × All P xs

unfoldable pub count_if : (IpPair → Bool) → List IpPair → ℕ
count_if p [] = 0
count_if p (r ∷ items) = if p r then suc (count_if p items) else count_if p items

unfoldable pub any_of : (IpPair → Bool) → List IpPair → Bool
any_of p [] = false
any_of p (r ∷ items) = p r || any_of p items

-- The address is in the range.
abbrev pub covers : ℕ → IpPair → Bool
covers ip r = leb r.start_ip ip && leb ip r.end_ip

-- A range that has not been merged into another.
abbrev pub is_live : IpPair → Bool
is_live r = ltb 0 r.end_ip

abbrev pub covers_live : ℕ → IpPair → Bool
covers_live ip r = is_live r && covers ip r

pub any_of-count_if :
    (p : IpPair → Bool) (items : List IpPair) → any_of p items ≡ ltb 0 (count_if p items)
unfolding any_of count_if
any_of-count_if p [] = refl
any_of-count_if p (r ∷ items) = ground (arith, any_of-count_if p items)

pub any_of-append :
    (p : IpPair → Bool) (xs ys : List IpPair) → any_of p (xs ++ ys) ≡ (any_of p xs || any_of p ys)
unfolding any_of
any_of-append p [] ys = refl
any_of-append p (r ∷ xs) ys = ground (arith, any_of-append p xs ys)

pub count_if-append :
    (p : IpPair → Bool) (xs ys : List IpPair)
    → count_if p (xs ++ ys) ≡ count_if p xs + count_if p ys
unfolding count_if
count_if-append p [] ys = omega arith
count_if-append p (r ∷ xs) ys = ground (arith, count_if-append p xs ys)

pub All-append {κ} :
    (P : IpPair → Type κ) (xs ys : List IpPair) → All P xs → All P ys → All P (xs ++ ys)
All-append P [] ys a b = b
All-append P (r ∷ xs) ys a b = (a.0, All-append P xs ys a.1 b)

pub count_if-length : (items : List IpPair) → count_if (λ _. true) items ≡ length items
unfolding count_if
count_if-length [] = refl
count_if-length (r ∷ items) = omega (arith, count_if-length items)

pub count_if-le-length : (p : IpPair → Bool) (items : List IpPair) → count_if p items ≤ length items
unfolding count_if
count_if-le-length p [] = omega arith
count_if-le-length p (r ∷ items) = ground (arith, count_if-le-length p items)

-- A range of the dictionary that the code's markers leave alone.
abbrev pub IsGood : IpPair → Type 0
IsGood r = (0 < r.start_ip) × (r.start_ip ≤ r.end_ip) × (r.end_ip ≢ ipv4_zero)

abbrev pub is_good : IpPair → Bool
is_good r = ltb 0 r.start_ip && leb r.start_ip r.end_ip && not (r.end_ip == ipv4_zero)

-- All pass a test, exactly if as many pass it as there are.
pub count_if-All :
    (P : IpPair → Type 0) (p : IpPair → Bool)
    → ((r : IpPair) → P r → p r ≡ true)
    → (items : List IpPair) → All P items
    → count_if p items ≡ length items
unfolding count_if
count_if-All P p to [] a = refl
count_if-All P p to (r ∷ items) a = ground (arith, to r a.0, count_if-All P p to items a.1)

pub All-count_if :
    (P : IpPair → Type 0) (p : IpPair → Bool)
    → ((r : IpPair) → p r ≡ true → P r)
    → (items : List IpPair) → count_if p items ≡ length items
    → All P items
unfolding count_if
All-count_if P p from [] h = tt
All-count_if P p from (r ∷ items) h =
    let bound = count_if-le-length p items in
    elim (Bool-cases (p r)) [
      | inl e ↦
          let n : count_if p items ≡ length items = ground arith in
          (from r e, All-count_if P p from items n)
      | inr e ↦ absurd (ground arith)
    ]
