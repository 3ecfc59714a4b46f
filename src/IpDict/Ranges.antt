-- ===== src/IpDict/Ranges.antt =====
-- The ranges while mergeItems runs: each is merged away or good, and the good ones fall.
use bfe.Common.{
  ℕ, ◌+◌, ◌≤◌, ◌<◌, ◌≡◌, refl, Bool, true, false, not, List, [], ◌∷◌, ◌++◌, if◌then◌else◌, ◌==◌,
  arith, length, Bool-cases, inl, inr, ◌⊎◌,
}
use bfe.IpDict.{IpPair, clear_items, is_zero}
use bfe.IpDict.Count.{All, IsGood, count_if, any_of, covers_live, is_live}

abbrev pub IsCleared : IpPair → Type 0
IsCleared r = (r.start_ip ≡ 0) × (r.end_ip ≡ 0)

-- Merged away, or good and below an address.
abbrev pub Below : ℕ → IpPair → Type 0
Below x r = IsCleared r ⊎ (IsGood r × (r.end_ip < x))

abbrev pub next_bound : ℕ → IpPair → ℕ
next_bound c r = if r.end_ip == 0 then c else r.start_ip

-- The starts of the live ranges fall, from c to b.
abbrev pub Falls : ℕ → ℕ → List IpPair → Type 0
Falls c b [] = b ≤ c
Falls c b (r ∷ items) = (r.start_ip ≤ c) × Falls (next_bound c r) b items

abbrev pub is_dead : IpPair → Bool
is_dead r = not (is_live r)

pub Falls-weaken : (c b b' : ℕ) (items : List IpPair) → b' ≤ b → Falls c b items → Falls c b' items
Falls-weaken c b b' [] h f = omega arith
Falls-weaken c b b' (r ∷ items) h f = (f.0, Falls-weaken (next_bound c r) b b' items h f.1)

pub Falls-raise : (c d b : ℕ) (items : List IpPair) → c ≤ d → Falls c b items → Falls d b items
Falls-raise c d b [] h f = omega arith
Falls-raise c d b (r ∷ items) h f =
    (omega (arith, f.0), Falls-raise (next_bound c r) (next_bound d r) b items (ground arith) f.1)

pub Falls-append :
    (c b : ℕ) (items : List IpPair) (r : IpPair)
    → Falls c b items
    → r.start_ip ≤ b
    → Falls c (next_bound b r) (items ++ r ∷ [])
Falls-append c b [] r f h = ground arith
Falls-append c b (k ∷ items) r f h = (f.0, Falls-append (next_bound c k) b items r f.1 h)

pub Falls-cleared : (c b : ℕ) (items : List IpPair) → b ≤ c → All IsCleared items → Falls c b items
Falls-cleared c b [] h a = h
Falls-cleared c b (r ∷ items) h a =
    (omega arith, Falls-cleared (next_bound c r) b items (ground arith) a.1)

pub Falls-le : (c b : ℕ) (items : List IpPair) → Falls c b items → b ≤ c
Falls-le c b [] f = f
Falls-le c b (r ∷ items) f = let h = Falls-le (next_bound c r) b items f.1 in ground arith

-- An address in a live range lies between the bounds.
pub covered-bounds :
    (x c b ip : ℕ) (items : List IpPair)
    → All (Below x) items
    → Falls c b items
    → any_of (covers_live ip) items ≡ true
    → (b ≤ ip) × (ip < x)
unfolding any_of
covered-bounds x c b ip [] a f h = cc
covered-bounds x c b ip (r ∷ items) a f h = elim (Bool-cases (covers_live ip r)) [
  | inl e ↦ let k = Falls-le (next_bound c r) b items f.1 in ground arith
  | inr e ↦ covered-bounds x (next_bound c r) b ip items a.1 f.1 (ground arith)
]

-- What the loop of checkMerge leaves.
pub clear_items-IsCleared :
    (x : ℕ) (items : List IpPair) → All (Below x) items → All IsCleared (clear_items items).0
unfolding clear_items
clear_items-IsCleared x [] a = tt
clear_items-IsCleared x (r ∷ items) a = elim (Bool-cases (is_zero r)) [
  | inl e ↦ rw e (ground arith, clear_items-IsCleared x items a.1)
  | inr e ↦ rw e (ground arith, clear_items-IsCleared x items a.1)
]

pub clear_items-count :
    (x : ℕ) (items : List IpPair)
    → All (Below x) items
    → ((clear_items items).1 + count_if is_dead items ≡ length items)
      × (length (clear_items items).0 ≡ length items)
unfolding clear_items count_if
clear_items-count x [] a = omega arith
clear_items-count x (r ∷ items) a = ground (arith, clear_items-count x items a.1)

pub any_of-cleared :
    (ip : ℕ) (items : List IpPair) → All IsCleared items → any_of (covers_live ip) items ≡ false
unfolding any_of
any_of-cleared ip [] a = refl
any_of-cleared ip (r ∷ items) a = ground (arith, any_of-cleared ip items a.1)

pub count_if-cleared :
    (items : List IpPair) → All IsCleared items → count_if is_dead items ≡ length items
unfolding count_if
count_if-cleared [] a = refl
count_if-cleared (r ∷ items) a = ground (arith, count_if-cleared items a.1)

pub Below-raise :
    (x y : ℕ) (items : List IpPair) → x ≤ y → All (Below x) items → All (Below y) items
Below-raise x y [] h a = tt
Below-raise x y (r ∷ items) h a = (ground arith, Below-raise x y items h a.1)

pub Below-cleared : (x : ℕ) (items : List IpPair) → All IsCleared items → All (Below x) items
Below-cleared x [] a = tt
Below-cleared x (r ∷ items) a = (inl a.0, Below-cleared x items a.1)
