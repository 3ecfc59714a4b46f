-- ===== src/HashSet/Keys.antt =====
-- The specification of a hash set: a list of keys without repetition, at most n of at most s bytes.
use bfe.Common.{
  ℕ, ◌≡◌, ◌+◌, refl, sym, ap, ◌∙◌, Bool, true, false, not, ◌&&◌, ◌||◌, List, [], ◌∷◌, length, arith,
  if◌then◌else◌, leb, Bool-cases, inl, inr, Bytes, bytes_eq, bytes_eq→eq,
}
use bfe.NodePool.{Run, ok, err, set_full, key_too_long}

unfoldable pub is_member : Bytes → List Bytes → Bool
is_member x [] = false
is_member x (y ∷ l) = bytes_eq x y || is_member x l

unfoldable pub erase : Bytes → List Bytes → List Bytes
erase k [] = []
erase k (y ∷ l) = if bytes_eq k y then l else y ∷ erase k l

abbrev pub NoRepeats : List Bytes → Type 0
NoRepeats [] = Unit
NoRepeats (y ∷ l) = (is_member y l ≡ false) × NoRepeats l

unfoldable pub add_key : ℕ → ℕ → List Bytes → Bytes → Run (List Bytes)
add_key n s l k =
    if leb n (length l)
    then err set_full
    else if not (leb (length k) s)
    then err key_too_long
    else if is_member k l
    then ok l
    else ok (k ∷ l)

unfoldable pub remove_key : ℕ → List Bytes → Bytes → Run (List Bytes)
remove_key s l k = if not (leb (length k) s) then err key_too_long else ok (erase k l)

unfoldable pub has_member : ℕ → List Bytes → Bytes → Bool
has_member s l k = leb (length k) s && is_member k l

pub erase-absent : (k : Bytes) (l : List Bytes) → is_member k l ≡ false → erase k l ≡ l
unfolding is_member erase
erase-absent k [] h = refl
erase-absent k (y ∷ l) h = elim (Bool-cases (bytes_eq k y)) [
  | inl e ↦ cc
  | inr e ↦ rw e (ap (λ t. y ∷ t) (erase-absent k l (rw e at h)))
]

pub length-erase :
    (k : Bytes) (l : List Bytes) → is_member k l ≡ true → length l ≡ length (erase k l) + 1
unfolding is_member erase
length-erase k [] h = cc
length-erase k (y ∷ l) h = elim (Bool-cases (bytes_eq k y)) [
  | inl e ↦ rw e (omega arith)
  | inr e ↦ rw e (omega (arith, length-erase k l (rw e at h)))
]

and_not_self : (a : Bool) → (a ≡ false) → a ≡ (a && not true)
and_not_self a h = rw h refl

and_true : (a : Bool) → a ≡ (a && not false)
and_true true = refl
and_true false = refl

pub is_member-erase :
    (k x : Bytes) (l : List Bytes)
    → NoRepeats l
    → is_member x (erase k l) ≡ (is_member x l && not (bytes_eq x k))
unfolding is_member erase
is_member-erase k x [] d = refl
is_member-erase k x (y ∷ l) d = elim (Bool-cases (bytes_eq k y)) [
  | inl e ↦
      let same = bytes_eq→eq k y e in
      elim (Bool-cases (bytes_eq x y)) [
        | inl f ↦
            let u : x ≡ y = bytes_eq→eq x y f in
            let v : is_member x l ≡ false = ap (λ t. is_member t l) u ∙ d.0 in
            let v' : bytes_eq x k ≡ true = ap (bytes_eq x) same ∙ f in rw (e, f, v, v') refl
        | inr f ↦
            let v' : bytes_eq x k ≡ false = ap (bytes_eq x) same ∙ f in
            rw (e, f, v') (and_true (is_member x l))
      ]
  | inr e ↦
      let ih = is_member-erase k x l d.1 in
      elim (Bool-cases (bytes_eq x y)) [
        | inr f ↦ rw (e, f) ih
        | inl f ↦ elim (Bool-cases (bytes_eq x k)) [
          | inr g ↦ rw (e, f, g) refl
          | inl g ↦
              let u : bytes_eq k y ≡ true = ap (λ t. bytes_eq t y) (sym (bytes_eq→eq x k g)) ∙ f in
              cc
        ]
      ]
]

pub NoRepeats-erase : (k : Bytes) (l : List Bytes) → NoRepeats l → NoRepeats (erase k l)
unfolding erase
NoRepeats-erase k [] d = tt
NoRepeats-erase k (y ∷ l) d = elim (Bool-cases (bytes_eq k y)) [
  | inl e ↦ rw e d.1
  | inr e ↦ let h = d.0 in rw e (is_member-erase k y l d.1 ∙ (rw h refl), NoRepeats-erase k l d.1)
]
