-- ===== src/HashSet/Examples.antt =====
-- Runs of a hash set of at most two keys of at most two bytes.
use bfe.Common.{ℕ, ◌≡◌, refl, true, false, List, [], ◌∷◌, Bytes, arith, bytes_eq}
use bfe.BytePool.{BytePool, new_fixed_byte_pool, fixed_set, fixed_get}
use bfe.BytePool.Pools.{byte_pool, fixed_byte_pool}
use bfe.NodePool.{ok, SetError}
use bfe.HashSet.{HashSet, new_hash_set}
use bfe.HashSet.Runs.{Call, Answer, run_set, run_keys, new_hash_set-run_keys, call_keys, call_set}
use bfe.HashSet.Keys.{add_key, remove_key, has_member, is_member, erase}

-- All keys meet in one bucket.
abbrev one_bucket : Bytes → ℕ
one_bucket key = 7

abbrev key_a : Bytes
key_a = b'a' ∷ []

abbrev key_b : Bytes
key_b = b'b' ∷ b'b' ∷ []

abbrev key_c : Bytes
key_c = b'c' ∷ []

abbrev calls : List Call
calls =
    Call.add_call key_a
    ∷ Call.add_call key_b
    ∷ Call.add_call key_c
    ∷ Call.remove_call key_a
    ∷ Call.exist_call key_b
    ∷ Call.add_call key_c
    ∷ Call.len_call
    ∷ []

new_hash_set-run_keys_example :
    (t : HashSet BytePool) × (new_hash_set byte_pool one_bucket 2 2 ≡ ok t)
    × (run_set byte_pool one_bucket t calls ≡ run_keys 2 2 [] calls)
new_hash_set-run_keys_example =
    new_hash_set-run_keys byte_pool one_bucket 2 2 calls (omega arith) (omega arith)
      (λ h. h, (λ h. h, (λ h. h, (tt, (tt, (λ h. h, (tt, tt)))))))

answers :
    run_keys 2 2 [] calls
    ≡ Answer.done
      ∷ Answer.done
      ∷ Answer.failure SetError.set_full
      ∷ Answer.done
      ∷ Answer.truth true
      ∷ Answer.done
      ∷ Answer.number 2
      ∷ []
unfolding run_keys call_keys add_key remove_key has_member is_member erase bytes_eq
answers = refl

run_new : List Call → List Answer
unfolding new_hash_set run_set call_set
run_new cs = elim (new_hash_set fixed_byte_pool one_bucket 2 2) [
  | ok t ↦ run_set fixed_byte_pool one_bucket t cs
  | _ ↦ []
]

-- In a pool of keys of two bytes, a shorter key is counted, and is not there.
short_key :
    run_new (Call.add_call key_a ∷ Call.exist_call key_a ∷ Call.len_call ∷ [])
    ≡ Answer.done ∷ Answer.truth false ∷ Answer.number 1 ∷ []
unfolding run_new new_fixed_byte_pool fixed_set fixed_get bytes_eq
short_key = refl
