-- ===== src/HashSet/Runs.antt =====
-- Runs of a hash set: the answers of any sequence of calls, and those of the specification.
use bfe.Common.{
  ℕ, ◌≡◌, ◌<◌, refl, sym, ap, Bool, true, false, ◌||◌, List, [], ◌∷◌, length, arith, ◌==◌, leb,
  Bytes,
}
use bfe.BytePool.{IBytePool}
use bfe.NodePool.{Run, ok, err, fault, SetError}
use bfe.NodePool.Chains.{All}
use bfe.HashSet.{HashSet, new_hash_set, add, remove, exist, len, is_full}
use bfe.HashSet.Keys.{add_key, remove_key, has_member}
use bfe.HashSet.Refine.{
  Represents, Agree, agree, failed, is_full-length, exist-has_member, add-Agree, remove-Agree,
}
use bfe.HashSet.Start.{started-Represents}

pub data Call : Type 0 where
  add_call remove_call exist_call : Bytes → Call
  len_call full_call : Call

pub data Answer : Type 0 where
  done broken : Answer
  failure : SetError → Answer
  truth : Bool → Answer
  number : ℕ → Answer

-- What a call that changes the set leaves, and answers. An error changes nothing.
abbrev pub after {ℓ} : {A : Type ℓ} → A → Run A → A × Answer
after t (ok t') = (t', done)
after t (err e) = (t, failure e)
after t fault = (t, broken)

abbrev pub truth_of : Run Bool → Answer
truth_of (ok b) = truth b
truth_of (err e) = failure e
truth_of fault = broken

-- The specification.
unfoldable pub call_keys : ℕ → ℕ → List Bytes → Call → List Bytes × Answer
unfolding add_key remove_key has_member
call_keys n s l (Call.add_call k) = after l (add_key n s l k)
call_keys n s l (Call.remove_call k) = after l (remove_key s l k)
call_keys n s l (Call.exist_call k) = (l, truth (has_member s l k))
call_keys n s l Call.len_call = (l, number (length l))
call_keys n s l Call.full_call = (l, truth (leb n (length l)))

unfoldable pub run_keys : ℕ → ℕ → List Bytes → List Call → List Answer
unfolding call_keys
run_keys n s l [] = []
run_keys n s l (c ∷ calls) = let (l', a) = call_keys n s l c in a ∷ run_keys n s l' calls

module _ {P : Type 0} (pool : IBytePool P) (hash : Bytes → ℕ) where
  unfoldable pub call_set : HashSet P → Call → HashSet P × Answer
  unfolding add remove exist len is_full
  call_set t (Call.add_call k) = after t (add pool hash t k)
  call_set t (Call.remove_call k) = after t (remove pool hash t k)
  call_set t (Call.exist_call k) = (t, truth_of (exist pool hash t k))
  call_set t Call.len_call = (t, number (len pool hash t))
  call_set t Call.full_call = (t, truth (is_full pool hash t))

  unfoldable pub run_set : HashSet P → List Call → List Answer
  unfolding call_set
  run_set t [] = []
  run_set t (c ∷ calls) = let (t', a) = call_set t c in a ∷ run_set t' calls

  -- Where keys have a fixed size, a key that is added has no smaller one.
  abbrev pub Fits : ℕ → Call → Type 0
  Fits s (Call.add_call k) = leb (length k) s ≡ true → pool.takes s k ≡ true
  Fits s (Call.remove_call k) = Unit
  Fits s (Call.exist_call k) = Unit
  Fits s Call.len_call = Unit
  Fits s Call.full_call = Unit

  module _ (n s : ℕ) where
    after-Agree :
        (t : HashSet P) (l : List Bytes) (r : Run (HashSet P)) (q : Run (List Bytes))
        → Represents pool hash n s t l
        → Agree pool hash n s r q
        → Represents pool hash n s (after t r).0 (after l q).0 × ((after t r).1 ≡ (after l q).1)
    after-Agree t l r q v (agree w) = (w, refl)
    after-Agree t l r q v (failed e) = (v, refl)

    call-Agree :
        (t : HashSet P) (l : List Bytes) (c : Call)
        → Represents pool hash n s t l
        → Fits s c
        → Represents pool hash n s (call_set t c).0 (call_keys n s l c).0
          × ((call_set t c).1 ≡ (call_keys n s l c).1)
    unfolding call_set call_keys len
    call-Agree t l (Call.add_call k) v f = after-Agree t l _ _ v (add-Agree pool hash n s t l k v f)
    call-Agree t l (Call.remove_call k) v f =
        after-Agree t l _ _ v (remove-Agree pool hash n s t l k v)
    call-Agree t l (Call.exist_call k) v f =
        (v, ap truth_of (exist-has_member pool hash n s t l k v))
    call-Agree t l Call.len_call v f = (v, ap number (sym v.size))
    call-Agree t l Call.full_call v f = (v, ap truth (is_full-length pool hash n s t l v))

    run_set-run_keys :
        (t : HashSet P) (l : List Bytes) (calls : List Call)
        → Represents pool hash n s t l
        → All (Fits s) calls
        → run_set t calls ≡ run_keys n s l calls
    unfolding run_set run_keys
    run_set-run_keys t l [] v f = refl
    run_set-run_keys t l (c ∷ calls) v f =
        let (w, e) = call-Agree t l c v f.0 in
        let ih = run_set-run_keys (call_set t c).0 (call_keys n s l c).0 calls w f.1 in
        rw (e, ih) refl

-- For a pool of bytes, a hash function and positive sizes, a new hash set answers every sequence of
-- calls as a list of keys without repetition does that holds at most `elem_num` keys of at most
-- `elem_size` bytes, errors included: no call panics or runs for ever. In a pool of keys of one size,
-- the keys that are added are not shorter than that.
pub new_hash_set-run_keys :
    {P : Type 0} (pool : IBytePool P) (hash : Bytes → ℕ) (elem_num elem_size : ℕ)
    (calls : List Call)
    → 0 < elem_num
    → 0 < elem_size
    → All (Fits pool hash elem_size) calls
    → (t : HashSet P) × (new_hash_set pool hash elem_num elem_size ≡ ok t)
      × (run_set pool hash t calls ≡ run_keys elem_num elem_size [] calls)
unfolding new_hash_set
new_hash_set-run_keys pool hash elem_num elem_size calls h k f =
    let e : (elem_num == 0 || elem_size == 0) ≡ false = ground arith in
    (
      _,
      rw e refl,
      run_set-run_keys pool hash elem_num elem_size _ [] calls
          (started-Represents pool hash elem_num elem_size h) f,
    )
