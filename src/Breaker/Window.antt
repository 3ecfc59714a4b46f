-- ===== src/Breaker/Window.antt =====
-- The ring buffer of the breaker against what it stands for: the latest results, oldest first.
use native.Mathlib.Decide.{dec_lt}
use native.Mathlib.Nat.{mod-eq_of_lt, mod_self}
use mathlib.Core.List.{append-nil, append_assoc, tail}
use bfe.Common.{
  ℕ, zero, suc, ◌+◌, ◌%◌, ◌≤◌, ◌<◌, ◌≡◌, refl, sym, ap, ◌∙◌, Bool, List, [], ◌∷◌, ◌++◌, ltb,
  if◌then◌else◌, arith, length, take, drop, set, length-append, length-take, length-drop,
  length-set, Bool-cases, inl, inr, take-append-drop,
}
use bfe.Breaker.{EppBreaker, append_result, count_errors}
use bfe.Breaker.Invariant.{InBounds}

-- The results in the ring, oldest first.
abbrev pub window_of : List Bool → ℕ → ℕ → List Bool
window_of rs count idx = if ltb count (length rs) then take count rs else drop idx rs ++ take idx rs

abbrev pub window : EppBreaker → List Bool
window b = window_of b.results b.count b.idx

-- Until the ring is full it is filled from its start.
pub record IsRing (b : EppBreaker) : Type 0 where
  pub bounds : InBounds b
  pub filling : b.count < length b.results → b.idx ≡ b.count

-- The latest n results, with one more.
abbrev pub push : ℕ → Bool → List Bool → List Bool
push n r w = (if ltb (length w) n then w else tail w) ++ r ∷ []

pub errors : List Bool → ℕ
errors [] = 0
errors (r ∷ w) = if r then errors w else suc (errors w)

errors-append : (v w : List Bool) → errors (v ++ w) ≡ errors v + errors w
unfolding errors
errors-append [] w = omega arith
errors-append (r ∷ v) w = ground (arith, errors-append v w)

count_errors-take : (rs : List Bool) (n : ℕ) → count_errors rs n ≡ errors (take n rs)
unfolding count_errors errors
count_errors-take rs zero = refl
count_errors-take [] (suc n) = refl
count_errors-take (r ∷ rs) (suc n) = ground (arith, count_errors-take rs n)

module _ {ℓ} {A : Type ℓ} where
  split-set :
      (xs : List A) (i : ℕ) (v : A) → i < length xs → set xs i v ≡ take i xs ++ v ∷ drop (suc i) xs
  split-set [] i v h = elim h [ ]
  split-set (x ∷ xs) zero v h = refl
  split-set (x ∷ xs) (suc i) v h = ap (λ r. x ∷ r) (split-set xs i v (omega arith))

  take-set :
      (xs : List A) (i : ℕ) (v : A)
      → i < length xs
      → take (suc i) (set xs i v) ≡ take i xs ++ v ∷ []
  take-set [] i v h = elim h [ ]
  take-set (x ∷ xs) zero v h = refl
  take-set (x ∷ xs) (suc i) v h = ap (λ r. x ∷ r) (take-set xs i v (omega arith))

  drop-set : (xs : List A) (i : ℕ) (v : A) → drop (suc i) (set xs i v) ≡ drop (suc i) xs
  drop-set [] i v = refl
  drop-set (x ∷ xs) zero v = refl
  drop-set (x ∷ xs) (suc i) v = drop-set xs i v

  tail-drop :
      (xs : List A) (i : ℕ)
      → i < length xs
      → (ys : List A) → tail (drop i xs ++ ys) ≡ drop (suc i) xs ++ ys
  tail-drop [] i h ys = elim h [ ]
  tail-drop (x ∷ xs) zero h ys = refl
  tail-drop (x ∷ xs) (suc i) h ys = tail-drop xs i (omega arith) ys

  drop_all : (xs : List A) (i : ℕ) → length xs ≤ i → drop i xs ≡ []
  drop_all [] zero h = refl
  drop_all [] (suc i) h = refl
  drop_all (x ∷ xs) zero h = absurd (omega arith)
  drop_all (x ∷ xs) (suc i) h = drop_all xs i (omega arith)

pub length-window : (b : EppBreaker) → IsRing b → length (window b) ≡ b.count
length-window b r = elim (Bool-cases (ltb b.count (length b.results))) [
  | inl h ↦ rw h (ground (arith, length-take b.count b.results))
  | inr h ↦ rw h (
      ground (
        arith,
        length-append (drop b.idx b.results) (take b.idx b.results),
        length-take b.idx b.results,
        length-drop b.idx b.results,
      ))
]

take_all {ℓ} : {A : Type ℓ} (xs : List A) (n : ℕ) → length xs ≤ n → take n xs ≡ xs
take_all [] zero h = refl
take_all [] (suc n) h = refl
take_all (x ∷ xs) zero h = absurd (omega arith)
take_all (x ∷ xs) (suc n) h = ap (λ r. x ∷ r) (take_all xs n (omega arith))

-- The errors that the loop of `record` counts are those of the window.
pub count_errors-window :
    (b : EppBreaker) → IsRing b → count_errors b.results b.count ≡ errors (window b)
count_errors-window b r = elim (Bool-cases (ltb b.count (length b.results))) [
  | inl h ↦ rw h (count_errors-take b.results b.count)
  | inr h ↦ rw h (
      count_errors-take b.results b.count
      ∙ ap errors (take_all b.results b.count (ground arith))
      ∙ omega (
        arith,
        ap errors (take-append-drop b.idx b.results),
        errors-append (drop b.idx b.results) (take b.idx b.results),
        errors-append (take b.idx b.results) (drop b.idx b.results),
      ))
]

-- The ring after a write at i, read from the position behind i.
rotate-set {ℓ} :
    {A : Type ℓ} (xs : List A) (i j : ℕ) (v : A)
    → i < length xs
    → j ≡ (i + 1) % length xs
    → drop j (set xs i v) ++ take j (set xs i v) ≡ drop (suc i) xs ++ (take i xs ++ v ∷ [])
rotate-set xs i j v h e = elim (dec_lt (i + 1) (length xs)) [
  | yes p ↦
      let e' : j ≡ suc i = e ∙ mod-eq_of_lt p ∙ omega arith in
      rw (e', drop-set xs i v, take-set xs i v h)
  | no p ↦
      let n : length xs ≡ i + 1 = omega arith in
      let e' : j ≡ 0 = e ∙ rw n (mod_self (i + 1)) in
      rw (e', append-nil, split-set xs i v h, drop_all xs (suc i) (omega arith))
]

window_of-full :
    (rs : List Bool) (count idx : ℕ)
    → length rs ≤ count
    → window_of rs count idx ≡ drop idx rs ++ take idx rs
window_of-full rs count idx h = ground arith

window_of-filling :
    (rs : List Bool) (count idx : ℕ) → count < length rs → window_of rs count idx ≡ take count rs
window_of-filling rs count idx h = ground arith

module _ (ok : Bool) (b : EppBreaker) (r : IsRing b) where
  abbrev i : ℕ
  i = b.idx

  abbrev rs : List Bool
  rs = b.results

  -- While the ring fills, its window grows at the end.
  append-filling : b.count < length rs → window (append_result ok b) ≡ window b ++ ok ∷ []
  unfolding append_result
  append-filling h =
      let e : i ≡ b.count = r.filling h in
      let c : (if ltb b.count (length rs) then b.count + 1 else b.count) ≡ suc i = ground arith in
      let old = window_of-filling rs b.count i h in
      elim (dec_lt (i + 1) (length rs)) [
        | yes p ↦
            window_of-filling (set rs i ok) _ _ (rw c (omega (arith, length-set rs i ok)))
            ∙ rw (c, take-set rs i ok r.bounds.idx_lt, old) (rw e)
        | no p ↦
            window_of-full (set rs i ok) _ _ (rw c (omega (arith, length-set rs i ok)))
            ∙ rotate-set rs i _ ok r.bounds.idx_lt refl
            ∙ rw (drop_all rs (suc i) (omega arith), old) (rw e)
      ]

  -- A full ring loses its oldest result for the new one.
  append-full : b.count ≡ length rs → window (append_result ok b) ≡ tail (window b) ++ ok ∷ []
  unfolding append_result
  append-full h =
      let old = window_of-full rs b.count i (omega arith) in
      window_of-full (set rs i ok) _ _ (ground (arith, length-set rs i ok))
      ∙ rotate-set rs i _ ok r.bounds.idx_lt refl
      ∙ rw (old, tail-drop rs i r.bounds.idx_lt)
          (sym (append_assoc (drop (suc i) rs) (take i rs) (ok ∷ [])))

  -- The write of `record` appends to the window, and drops the oldest result if the ring is full.
  pub window-append_result : window (append_result ok b) ≡ push (length rs) ok (window b)
  window-append_result = elim (dec_lt b.count (length rs)) [
    | yes p ↦ append-filling p ∙ ground (arith, length-window b r)
    | no p ↦
        append-full (omega (arith, r.bounds.count_le))
        ∙ ground (arith, length-window b r, r.bounds.count_le)
  ]
