-- ===== src/BytePool.antt =====
-- bfe_util/byte_pool: ibyte_pool.go, fixed_byte_pool.go and byte_pool.go, elements of bytes in one
-- buffer. Out of range, Go's slicing panics: `get` is none.
pub mod Copy
pub mod Pools
use bfe.Common.{
  ℕ, suc, zero, ◌+◌, ◌*◌, ◌≤◌, ◌<◌, ◌≡◌, ◌≢◌, Bool, true, false, ◌&&◌, not, Option, none, some,
  List, [], ◌∷◌, if◌then◌else◌, ltb, leb, ◌==◌, length, take, drop, replicate, get_elem?, set,
  Bytes,
}

-- copy(buf[start:], key), which stops at the end of the shorter one.
unfoldable pub copy_at : Bytes → ℕ → Bytes → Bytes
copy_at [] start key = []
copy_at (b ∷ buf) (suc start) key = b ∷ copy_at buf start key
copy_at (b ∷ buf) zero [] = b ∷ buf
copy_at (b ∷ buf) zero (k ∷ key) = k ∷ copy_at buf zero key

-- buf[start:end], for `end` = `start` + `n`.
unfoldable pub slice : Bytes → ℕ → ℕ → Option Bytes
slice buf start n = if leb (start + n) (length buf) then some (take n (drop start buf)) else none

pub record FixedBytePool : Type 0 where
  pub buf : Bytes
  pub elem_size : ℕ
  pub max_elem_num : ℕ

unfoldable pub new_fixed_byte_pool : ℕ → ℕ → FixedBytePool
new_fixed_byte_pool elem_num elem_size = record {
  buf = replicate (elem_num * elem_size) 0;
  elem_size = elem_size;
  max_elem_num = elem_num;
}

-- The pool, and whether the key was stored; the error otherwise leaves the pool as it was.
unfoldable pub fixed_set : FixedBytePool → ℕ → Bytes → FixedBytePool × Bool
unfolding copy_at
fixed_set pool index key =
    if leb pool.max_elem_num index
    then (pool, false)
    else if not (length key == pool.elem_size)
    then (pool, false)
    else (record pool { buf = copy_at pool.buf (index * pool.elem_size) key }, true)

unfoldable pub fixed_get : FixedBytePool → ℕ → Option Bytes
unfolding slice
fixed_get pool index = slice pool.buf (index * pool.elem_size) pool.elem_size

pub record BytePool : Type 0 where
  pub buf : Bytes
  pub lengths : List ℕ
  pub max_elem_size : ℕ
  pub max_elem_num : ℕ

unfoldable pub new_byte_pool : ℕ → ℕ → BytePool
new_byte_pool elem_num max_elem_size = record {
  buf = replicate (elem_num * max_elem_size) 0;
  lengths = replicate elem_num 0;
  max_elem_size = max_elem_size;
  max_elem_num = elem_num;
}

-- A length is below 2 ^ 32, as that of a slice in memory.
unfoldable pub variable_set : BytePool → ℕ → Bytes → BytePool × Bool
unfolding copy_at
variable_set pool index key =
    if leb pool.max_elem_num index
    then (pool, false)
    else if ltb pool.max_elem_size (length key)
    then (pool, false)
    else (
      record pool {
        buf = copy_at pool.buf (index * pool.max_elem_size) key;
        lengths = set pool.lengths index (length key);
      },
      true,
    )

unfoldable pub variable_get : BytePool → ℕ → Option Bytes
unfolding slice
variable_get pool index = elim (get_elem? pool.lengths index) [
  | none ↦ none
  | some n ↦ slice pool.buf (index * pool.max_elem_size) n
]

-- The interface of the pools. `Holds p n s`: p has been made for n elements of size s.
pub record IBytePool (P : Type 0) : Type 1 where
  pub new : ℕ → ℕ → P
  pub set : P → ℕ → Bytes → P × Bool
  pub get : P → ℕ → Option Bytes
  pub max_elem_size : P → ℕ
  pub takes : ℕ → Bytes → Bool
  pub Holds : P → ℕ → ℕ → Type 0
  pub new_holds : (n s : ℕ) → Holds (new n s) n s
  pub size_lem : (p : P) (n s : ℕ) → Holds p n s → max_elem_size p ≡ s
  pub set_holds : (p : P) (n s i : ℕ) (key : Bytes) → Holds p n s → Holds (set p i key).0 n s
  pub get-set_self :
      (p : P) (n s i : ℕ) (key : Bytes)
      → Holds p n s
      → i < n
      → takes s key ≡ true
      → get (set p i key).0 i ≡ some key
  pub get-set_ne :
      (p : P) (n s i j : ℕ) (key : Bytes) → Holds p n s → i ≢ j → get (set p i key).0 j ≡ get p j
