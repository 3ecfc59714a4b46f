-- ===== src/BytePool/Pools.antt =====
-- The two pools meet their interface: what was stored is read back, and nothing else changes.
use native.Mathlib.Nat.{mul-le-mul_right}
use native.Mathlib.Decide.{dec_lt}
use bfe.Common.{
  ℕ, suc, zero, ◌+◌, ◌*◌, ◌≤◌, ◌<◌, ◌≡◌, ◌≢◌, refl, true, false, Option, none, some, List, leb, ltb,
  ◌==◌, length, replicate, length-replicate, get_elem?, set, length-set, get_elem?-set_self,
  get_elem?-set_ne, Bytes, arith, ◌⊎◌, inl, inr, Bool-cases, Option-cases, sym, ◌∙◌,
}
use bfe.BytePool.{
  FixedBytePool, BytePool, IBytePool, new_fixed_byte_pool, fixed_set, fixed_get, new_byte_pool,
  variable_set, variable_get, copy_at, slice,
}
use bfe.BytePool.Copy.{length-copy_at, slice-copy_at, slice-copy_other}

-- Elements of size s at different indices do not meet.
apart : (i j s a b : ℕ) → i ≢ j → a ≤ s → b ≤ s → (j * s + a ≤ i * s) ⊎ (i * s + b ≤ j * s)
apart i j s a b ne h k = elim (dec_lt j i) [
  | yes l ↦ let m : suc j * s ≤ i * s = mul-le-mul_right s l in inl (grind arith)
  | no l ↦
      let g : i < j = ground arith in
      let m : suc i * s ≤ j * s = mul-le-mul_right s g in inr (grind arith)
]

inside : (i n s : ℕ) → i < n → i * s + s ≤ n * s
inside i n s l = let m : suc i * s ≤ n * s = mul-le-mul_right s l in grind arith

pub record FixedHolds (p : FixedBytePool) (n s : ℕ) : Type 0 where
  full : length p.buf ≡ n * s
  size : p.elem_size ≡ s
  number : p.max_elem_num ≡ n

pub fixed_set-FixedHolds :
    (p : FixedBytePool) (n s i : ℕ) (key : Bytes)
    → FixedHolds p n s
    → FixedHolds (fixed_set p i key).0 n s
unfolding fixed_set
fixed_set-FixedHolds p n s i key h =
    let l = length-copy_at p.buf (i * p.elem_size) key in ground (arith, h.full, h.size, h.number)

pub fixed_get-set_self :
    (p : FixedBytePool) (n s i : ℕ) (key : Bytes)
    → FixedHolds p n s
    → i < n
    → (length key == s) ≡ true
    → fixed_get (fixed_set p i key).0 i ≡ some key
unfolding fixed_set fixed_get
fixed_get-set_self p n s i key h l e =
    let size = h.size in
    let number = h.number in
    let full = h.full in
    let u : leb p.max_elem_num i ≡ false = ground arith in
    let v : (length key == p.elem_size) ≡ true = ground arith in
    let w = inside i n s l in
    let x : i * p.elem_size + p.elem_size ≤ length p.buf = rw size (omega (arith, w, full)) in
    rw (u, v) (slice-copy_at p.buf (i * p.elem_size) p.elem_size key (ground arith) x)

pub fixed_get-set_ne :
    (p : FixedBytePool) (n s i j : ℕ) (key : Bytes)
    → FixedHolds p n s
    → i ≢ j
    → fixed_get (fixed_set p i key).0 j ≡ fixed_get p j
unfolding fixed_set fixed_get
fixed_get-set_ne p n s i j key h ne = elim (Bool-cases (leb p.max_elem_num i)) [
  | inl u ↦ rw u refl
  | inr u ↦ elim (Bool-cases (length key == p.elem_size)) [
    | inr v ↦ rw (u, v) refl
    | inl v ↦
        rw (u, v)
          (slice-copy_other p.buf (j * p.elem_size) p.elem_size (i * p.elem_size) key
            (apart i j p.elem_size p.elem_size (length key) ne (omega arith) (ground arith)))
  ]
]

pub new-FixedHolds : (n s : ℕ) → FixedHolds (new_fixed_byte_pool n s) n s
unfolding new_fixed_byte_pool
new-FixedHolds n s = record { full = length-replicate (n * s) 0; size = refl; number = refl }

abbrev pub fixed_byte_pool : IBytePool FixedBytePool
fixed_byte_pool = record {
  new = new_fixed_byte_pool;
  set = fixed_set;
  get = fixed_get;
  max_elem_size = λ p. p.elem_size;
  takes = λ s key. length key == s;
  Holds = FixedHolds;
  new_holds = new-FixedHolds;
  size_lem = λ p n s h. h.size;
  set_holds = fixed_set-FixedHolds;
  get-set_self = fixed_get-set_self;
  get-set_ne = fixed_get-set_ne;
}

pub record VariableHolds (p : BytePool) (n s : ℕ) : Type 0 where
  full : length p.buf ≡ n * s
  size : p.max_elem_size ≡ s
  number : p.max_elem_num ≡ n
  counted : length p.lengths ≡ n
  short : (j l : ℕ) → get_elem? p.lengths j ≡ some l → l ≤ s

some_same : (a b : ℕ) → ◌≡◌ {A = Option ℕ} (some a) (some b) → a ≡ b
some_same a b h = cc

set-short :
    (ls : List ℕ) (s i k : ℕ)
    → k ≤ s
    → i < length ls
    → ((j l : ℕ) → get_elem? ls j ≡ some l → l ≤ s)
    → (j l : ℕ) → get_elem? (set ls i k) j ≡ some l
    → l ≤ s
set-short ls s i k h b a j l g = elim (Bool-cases (i == j)) [
  | inl e ↦
      let same : i ≡ j = ground arith in
      let u : get_elem? (set ls i k) j ≡ some k = rw (← same) (get_elem?-set_self ls i k b) in
      let w : k ≡ l = some_same k l (cc (u, g)) in omega (arith, w)
  | inr e ↦ let other : i ≢ j = ground arith in a j l (rw (get_elem?-set_ne ls k other) at g)
]

pub variable_set-VariableHolds :
    (p : BytePool) (n s i : ℕ) (key : Bytes)
    → VariableHolds p n s
    → VariableHolds (variable_set p i key).0 n s
unfolding variable_set
variable_set-VariableHolds p n s i key h = elim (Bool-cases (leb p.max_elem_num i)) [
  | inl u ↦ rw u h
  | inr u ↦ elim (Bool-cases (ltb p.max_elem_size (length key))) [
    | inl v ↦ rw (u, v) h
    | inr v ↦
        let number = h.number in
        let size = h.size in
        let counted = h.counted in
        rw (u, v)
          (record {
            full = omega (arith, h.full, length-copy_at p.buf (i * p.max_elem_size) key);
            size = h.size;
            number = h.number;
            counted = omega (arith, h.counted, length-set p.lengths i (length key));
            short = set-short p.lengths s i (length key) (ground arith) (ground arith) h.short;
          })
  ]
]

abbrev stored : BytePool → ℕ → Bytes → BytePool
stored p i key = record p {
  buf = copy_at p.buf (i * p.max_elem_size) key;
  lengths = set p.lengths i (length key);
}

variable_get-slice :
    (p : BytePool) (j n : ℕ)
    → get_elem? p.lengths j ≡ some n
    → variable_get p j ≡ slice p.buf (j * p.max_elem_size) n
unfolding variable_get
variable_get-slice p j n g = rw (g, variable_get) refl

variable_get-none : (p : BytePool) (j : ℕ) → get_elem? p.lengths j ≡ none → variable_get p j ≡ none
unfolding variable_get
variable_get-none p j g = rw (g, variable_get) refl

pub variable_get-set_self :
    (p : BytePool) (n s i : ℕ) (key : Bytes)
    → VariableHolds p n s
    → i < n
    → leb (length key) s ≡ true
    → variable_get (variable_set p i key).0 i ≡ some key
unfolding variable_set variable_get
variable_get-set_self p n s i key h l e =
    let size = h.size in
    let number = h.number in
    let full = h.full in
    let counted = h.counted in
    let u : leb p.max_elem_num i ≡ false = ground arith in
    let v : ltb p.max_elem_size (length key) ≡ false = ground arith in
    let w = inside i n s l in
    let short : length key ≤ s = ground arith in
    let x : i * p.max_elem_size + length key ≤ length p.buf =
      rw size (omega (arith, w, full, short)) in
    let g = get_elem?-set_self p.lengths i (length key) (omega arith) in
    rw (u, v)
      (variable_get-slice (stored p i key) i (length key) g
        ∙ slice-copy_at p.buf (i * p.max_elem_size) (length key) key refl x)

pub variable_get-set_ne :
    (p : BytePool) (n s i j : ℕ) (key : Bytes)
    → VariableHolds p n s
    → i ≢ j
    → variable_get (variable_set p i key).0 j ≡ variable_get p j
unfolding variable_set variable_get
variable_get-set_ne p n s i j key h ne = elim (Bool-cases (leb p.max_elem_num i)) [
  | inl u ↦ rw u refl
  | inr u ↦ elim (Bool-cases (ltb p.max_elem_size (length key))) [
    | inl v ↦ rw (u, v) refl
    | inr v ↦ elim (Option-cases (get_elem? p.lengths j)) [
      | inl g ↦
          let g' = get_elem?-set_ne p.lengths (length key) ne ∙ g in
          rw (u, v) (variable_get-none (stored p i key) j g' ∙ sym (variable_get-none p j g))
      | inr (l, g) ↦
          let size = h.size in
          let short = h.short j l g in
          let g' = get_elem?-set_ne p.lengths (length key) ne ∙ g in
          rw (u, v)
            (variable_get-slice (stored p i key) j l g'
              ∙ slice-copy_other p.buf (j * p.max_elem_size) l (i * p.max_elem_size) key
                  (apart i j p.max_elem_size l (length key) ne (omega arith) (ground arith))
              ∙ sym (variable_get-slice p j l g))
    ]
  ]
]

get_elem?-replicate : (n j l : ℕ) → get_elem? (replicate n (0)) j ≡ some l → l ≡ 0
get_elem?-replicate zero j l h = cc
get_elem?-replicate (suc n) zero l h = sym (some_same 0 l h)
get_elem?-replicate (suc n) (suc j) l h = get_elem?-replicate n j l h

pub new-VariableHolds : (n s : ℕ) → VariableHolds (new_byte_pool n s) n s
unfolding new_byte_pool
new-VariableHolds n s = record {
  full = length-replicate (n * s) 0;
  size = refl;
  number = refl;
  counted = length-replicate n 0;
  short = λ j l h. let z = get_elem?-replicate n j l h in omega arith;
}

abbrev pub byte_pool : IBytePool BytePool
byte_pool = record {
  new = new_byte_pool;
  set = variable_set;
  get = variable_get;
  max_elem_size = λ p. p.max_elem_size;
  takes = λ s key. leb (length key) s;
  Holds = VariableHolds;
  new_holds = new-VariableHolds;
  size_lem = λ p n s h. h.size;
  set_holds = variable_set-VariableHolds;
  get-set_self = variable_get-set_self;
  get-set_ne = variable_get-set_ne;
}
