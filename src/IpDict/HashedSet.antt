-- ===== src/IpDict/HashedSet.antt =====
-- The set of single addresses, as NewIPItems makes it: a hash set of keys of 16 bytes.
use bfe.Common.{
  ℕ, zero, suc, ◌+◌, ◌*◌, ◌/◌, ◌%◌, ◌<◌, ◌≡◌, refl, sym, ap, ◌∙◌, Bool, true, false, ◌||◌, Option,
  none, some, List, [], ◌∷◌, ◌++◌, length, length-append, leb, ◌==◌, arith, Bytes, bytes_eq,
  bytes_eq→eq, bytes_eq_refl, Bool-cases, inl, inr,
}
use bfe.BytePool.{FixedBytePool}
use bfe.BytePool.Pools.{fixed_byte_pool}
use bfe.NodePool.{Run, ok, err, fault, SetError}
use bfe.HashSet
use bfe.HashSet.{HashSet, new_hash_set}
use bfe.HashSet.Keys.{is_member, add_key, has_member}
use bfe.HashSet.Refine.{Represents, Agree, agree, failed, exist-has_member, add-Agree}
use bfe.HashSet.Start.{started-Represents}
use bfe.IpDict.{IpSet, address_bound}

-- The lowest bytes of a number, the greatest of them first.
pub bytes_of : ℕ → ℕ → Bytes
bytes_of zero n = []
bytes_of (suc w) n = bytes_of w (n / 256) ++ (n % 256) ∷ []

value_of : ℕ → Bytes → ℕ
value_of acc [] = acc
value_of acc (b ∷ bs) = value_of (acc * 256 + b) bs

bound : ℕ → ℕ
bound zero = 1
bound (suc w) = 256 * bound w

length-bytes_of : (w n : ℕ) → length (bytes_of w n) ≡ w
unfolding bytes_of
length-bytes_of zero n = refl
length-bytes_of (suc w) n =
    omega
      (arith, length-append (bytes_of w (n / 256)) ((n % 256) ∷ []), length-bytes_of w (n / 256))

value_of-append :
    (acc : ℕ) (bs : Bytes) (b : ℕ) → value_of acc (bs ++ b ∷ []) ≡ value_of acc bs * 256 + b
unfolding value_of
value_of-append acc [] b = refl
value_of-append acc (c ∷ bs) b = value_of-append (acc * 256 + c) bs b

value_of-bytes_of : (w n : ℕ) → n < bound w → value_of 0 (bytes_of w n) ≡ n
unfolding bound bytes_of value_of
value_of-bytes_of zero n h = omega arith
value_of-bytes_of (suc w) n h =
    value_of-append 0 (bytes_of w (n / 256)) (n % 256)
    ∙ omega (arith, value_of-bytes_of w (n / 256) (omega arith))

abbrev key_of : ℕ → Bytes
key_of n = bytes_of 16 n

sixteen : bound 16 ≡ address_bound
unfolding bound
sixteen = refl

key_of-eq :
    (j k : ℕ) → j < address_bound → k < address_bound → bytes_eq (key_of k) (key_of j) ≡ (j == k)
key_of-eq j k h l =
    let vj = value_of-bytes_of 16 j (rw sixteen h) in
    let vk = value_of-bytes_of 16 k (rw sixteen l) in
    elim (Bool-cases (j == k)) [
      | inl e ↦ let same : j ≡ k = ground arith in rw (e, same) (bytes_eq_refl (key_of k))
      | inr e ↦ elim (Bool-cases (bytes_eq (key_of k) (key_of j))) [
        | inr f ↦ f ∙ sym e
        | inl f ↦
            let same = ap (value_of 0) (bytes_eq→eq (key_of k) (key_of j) f) in
            absurd (ground arith)
      ]
    ]

module _ (hash : Bytes → ℕ) where
  abbrev pub Set16 : Type 0
  Set16 = HashSet FixedBytePool

  ok_of {ℓ} : {A : Type ℓ} → Run A → Option A
  ok_of (ok a) = some a
  ok_of (err e) = none
  ok_of fault = none

  bool_of : Run Bool → Bool
  bool_of (ok b) = b
  bool_of (err e) = false
  bool_of fault = false

  unfoldable pub hashed_new : ℕ → Option Set16
  unfolding ok_of new_hash_set
  hashed_new n = ok_of (new_hash_set fixed_byte_pool hash n 16)

  unfoldable pub hashed_exist : Set16 → ℕ → Bool
  unfolding bool_of HashSet.exist bytes_of
  hashed_exist s k = bool_of (HashSet.exist fixed_byte_pool hash s (key_of k))

  unfoldable pub hashed_add : Set16 → ℕ → Option Set16
  unfolding ok_of HashSet.add bytes_of
  hashed_add s k = ok_of (HashSet.add fixed_byte_pool hash s (key_of k))

  pub HashedHolds : Set16 → Type 0
  HashedHolds s = (n : ℕ) × (l : List Bytes) × Represents fixed_byte_pool hash n 16 s l

  some_same : (s t : Set16) → ◌≡◌ {A = Option Set16} (some s) (some t) → s ≡ t
  some_same s t h = cc

  none_not : (t : Set16) → ◌≡◌ {A = Option Set16} none (some t) → ⊥
  none_not t h = cc

  pub new-Represents :
      (n : ℕ) (s : Set16) → hashed_new n ≡ some s → Represents fixed_byte_pool hash n 16 s []
  unfolding hashed_new ok_of new_hash_set
  new-Represents n s h = elim (Bool-cases (n == 0)) [
    | inl e ↦ absurd (none_not s (rw e at h))
    | inr e ↦
        let same = some_same _ s (rw e at h) in
        rw (← same) (started-Represents fixed_byte_pool hash n 16 (ground arith))
  ]

  err_not : (e : SetError) (l : List Bytes) → ◌≡◌ {A = Run (List Bytes)} (err e) (ok l) → ⊥
  err_not e l h = cc

  ok_same : (l l' : List Bytes) → ◌≡◌ {A = Run (List Bytes)} (ok l) (ok l') → l ≡ l'
  ok_same l l' h = cc

  pub no_member : (k : Bytes) → is_member k [] ≡ false
  unfolding is_member
  no_member k = refl

  full_length : (k : Bytes) → length k ≡ 16 → (length k == 16) ≡ true
  full_length k e = ground arith

  short_key : (k : Bytes) (l : List Bytes) → length k ≡ 16 → has_member 16 l k ≡ is_member k l
  unfolding has_member
  short_key k l e = ground arith

  pub exist-is_member :
      (n : ℕ) (l : List Bytes) (s : Set16)
      → Represents fixed_byte_pool hash n 16 s l
      → (k : ℕ) → hashed_exist s k ≡ is_member (key_of k) l
  unfolding hashed_exist bool_of
  exist-is_member n l s v k =
      ap bool_of (exist-has_member fixed_byte_pool hash n 16 s l (key_of k) v)
      ∙ short_key (key_of k) l (length-bytes_of 16 k)

  -- A key that was added without an error, and the keys before.
  data Grows (n : ℕ) (l : List Bytes) (k : Bytes) (s : Set16) : Type 0 where
    grown :
        {l' : List Bytes}
        → Represents fixed_byte_pool hash n 16 s l'
        → add_key n 16 l k ≡ ok l'
        → Grows n l k s

  Agree-Grows :
      (n : ℕ) (l : List Bytes) (k : Bytes) {r : Run Set16} {q : Run (List Bytes)} (s' : Set16)
      → Agree fixed_byte_pool hash n 16 r q
      → add_key n 16 l k ≡ q
      → ok_of r ≡ some s'
      → Grows n l k s'
  unfolding ok_of
  Agree-Grows n l k s' (agree v) e h = grown (rw (some_same _ s' h) at v) e
  Agree-Grows n l k s' (failed x) e h = absurd (none_not s' h)

  add_key-is_member :
      (n : ℕ) (l l' : List Bytes) (j k : Bytes)
      → add_key n 16 l j ≡ ok l'
      → is_member k l' ≡ (bytes_eq k j || is_member k l)
  unfolding add_key is_member
  add_key-is_member n l l' j k h = elim (Bool-cases (leb n (length l))) [
    | inl e ↦ absurd (err_not _ l' (rw e at h))
    | inr e ↦ elim (Bool-cases (leb (length j) 16)) [
      | inr f ↦ absurd (err_not _ l' (rw (e, f) at h))
      | inl f ↦ elim (Bool-cases (is_member j l)) [
        | inr g ↦ let same = ok_same _ l' (rw (e, f, g) at h) in rw (← same) refl
        | inl g ↦
            let same = ok_same _ l' (rw (e, f, g) at h) in
            rw (← same) (elim (Bool-cases (bytes_eq k j)) [
              | inr d ↦ rw d refl
              | inl d ↦ let eq = ap (λ x. is_member x l) (bytes_eq→eq k j d) ∙ g in rw (d, eq) refl
            ])
      ]
    ]
  ]

  hashed_add-Grows :
      (n : ℕ) (l : List Bytes) (s s' : Set16) (j : ℕ)
      → Represents fixed_byte_pool hash n 16 s l
      → hashed_add s j ≡ some s'
      → Grows n l (key_of j) s'
  unfolding hashed_add
  hashed_add-Grows n l s s' j v h =
      Agree-Grows n l (key_of j) s'
        (add-Agree fixed_byte_pool hash n 16 s l (key_of j) v
          (λ _. full_length (key_of j) (length-bytes_of 16 j)))
        refl h

  pub hashed_add-HashedHolds :
      (s s' : Set16) (j : ℕ) → HashedHolds s → hashed_add s j ≡ some s' → HashedHolds s'
  unfolding HashedHolds
  hashed_add-HashedHolds s s' j (n, l, v) h = holds_of (hashed_add-Grows n l s s' j v h)
    where
      holds_of :
          Grows n l (key_of j) s'
          → (m : ℕ) × (l' : List Bytes) × Represents fixed_byte_pool hash m 16 s' l'
      holds_of (grown {l' = l'} w e) = (n, l', w)

  pub hashed_add-exist :
      (s s' : Set16) (j k : ℕ)
      → HashedHolds s
      → hashed_add s j ≡ some s'
      → j < address_bound
      → k < address_bound
      → hashed_exist s' k ≡ (j == k || hashed_exist s k)
  unfolding HashedHolds
  hashed_add-exist s s' j k (n, l, v) h bj bk = from (hashed_add-Grows n l s s' j v h)
    where
      from : Grows n l (key_of j) s' → hashed_exist s' k ≡ (j == k || hashed_exist s k)
      from (grown {l' = l'} w e) =
          let x = exist-is_member n l' s' w k in
          let y = exist-is_member n l s v k in
          let z = add_key-is_member n l l' (key_of j) (key_of k) e in
          let same = key_of-eq j k bj bk in
          x ∙ z ∙ ap (λ b. b || is_member (key_of k) l) same ∙ ap (λ b. j == k || b) (sym y)

  -- The hash set keeps the interface.
  unfoldable pub hashed_set : IpSet Set16
  unfolding HashedHolds hashed_new hashed_exist hashed_add
  hashed_set = record {
    new = hashed_new;
    exist = hashed_exist;
    add = hashed_add;
    len = HashSet.len fixed_byte_pool hash;
    Holds = HashedHolds;
    new_holds = λ n s h. (n, [], new-Represents n s h);
    new_lem = λ n s h k. exist-is_member n [] s (new-Represents n s h) k ∙ no_member (key_of k);
    add_holds = hashed_add-HashedHolds;
    add_lem = hashed_add-exist;
  }
