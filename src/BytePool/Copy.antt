-- ===== src/BytePool/Copy.antt =====
-- Copying into a part of a buffer, and reading that part or another.
use bfe.Common.{
  ℕ, suc, zero, ◌+◌, ◌≤◌, ◌≡◌, refl, ap, some, [], ◌∷◌, length, take, drop, Bytes, arith, ◌⊎◌, inl,
  inr,
}
use bfe.BytePool.{copy_at, slice}

pub length-copy_at : (buf : Bytes) (s : ℕ) (key : Bytes) → length (copy_at buf s key) ≡ length buf
unfolding copy_at
length-copy_at [] s key = refl
length-copy_at (b ∷ buf) (suc s) key = ap suc (length-copy_at buf s key)
length-copy_at (b ∷ buf) zero [] = refl
length-copy_at (b ∷ buf) zero (k ∷ key) = ap suc (length-copy_at buf zero key)

take-copy_at :
    (buf : Bytes) (s : ℕ) (key : Bytes)
    → s + length key ≤ length buf
    → take (length key) (drop s (copy_at buf s key)) ≡ key
unfolding copy_at
take-copy_at [] zero [] h = refl
take-copy_at [] zero (k ∷ key) h = absurd (omega arith)
take-copy_at [] (suc s) key h = absurd (omega arith)
take-copy_at (b ∷ buf) (suc s) key h = take-copy_at buf s key (omega arith)
take-copy_at (b ∷ buf) zero [] h = refl
take-copy_at (b ∷ buf) zero (k ∷ key) h = ap (λ t. k ∷ t) (take-copy_at buf zero key (omega arith))

take-copy_before :
    (buf : Bytes) (t n s : ℕ) (key : Bytes)
    → t + n ≤ s
    → take n (drop t (copy_at buf s key)) ≡ take n (drop t buf)
unfolding copy_at
take-copy_before [] t n s key h = refl
take-copy_before (b ∷ buf) t zero s key h = refl
take-copy_before (b ∷ buf) t (suc n) zero key h = absurd (omega arith)
take-copy_before (b ∷ buf) zero (suc n) (suc s) key h =
    ap (λ l. b ∷ l) (take-copy_before buf zero n s key (omega arith))
take-copy_before (b ∷ buf) (suc t) (suc n) (suc s) key h =
    take-copy_before buf t (suc n) s key (omega arith)

drop-copy_after :
    (buf : Bytes) (t s : ℕ) (key : Bytes)
    → s + length key ≤ t
    → drop t (copy_at buf s key) ≡ drop t buf
unfolding copy_at
drop-copy_after [] t s key h = refl
drop-copy_after (b ∷ buf) zero (suc s) key h = absurd (omega arith)
drop-copy_after (b ∷ buf) (suc t) (suc s) key h = drop-copy_after buf t s key (omega arith)
drop-copy_after (b ∷ buf) t zero [] h = refl
drop-copy_after (b ∷ buf) zero zero (k ∷ key) h = absurd (omega arith)
drop-copy_after (b ∷ buf) (suc t) zero (k ∷ key) h = drop-copy_after buf t zero key (omega arith)

-- What was written is read back.
pub slice-copy_at :
    (buf : Bytes) (s n : ℕ) (key : Bytes)
    → length key ≡ n
    → s + n ≤ length buf
    → slice (copy_at buf s key) s n ≡ some key
unfolding slice
slice-copy_at buf s n key e h =
    let t = take-copy_at buf s key (omega arith) in
    let l = length-copy_at buf s key in
    let u : take n (drop s (copy_at buf s key)) ≡ key = rw (← e) t in ground arith

-- A part that the write does not touch reads as before.
pub slice-copy_other :
    (buf : Bytes) (t n s : ℕ) (key : Bytes)
    → (t + n ≤ s) ⊎ (s + length key ≤ t)
    → slice (copy_at buf s key) t n ≡ slice buf t n
unfolding slice
slice-copy_other buf t n s key (inl h) =
    rw (length-copy_at buf s key, take-copy_before buf t n s key h) refl
slice-copy_other buf t n s key (inr h) =
    rw (length-copy_at buf s key, drop-copy_after buf t s key h) refl
