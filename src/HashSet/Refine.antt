-- ===== src/HashSet/Refine.antt =====
-- A hash set and the list of its keys: each operation does to the one what the specification does to
-- the other.
use mathlib.Core.Path.{}
use bfe.Common.{
  ℕ, ◌≡◌, ◌%◌, refl, sym, ap, ◌∙◌, true, false, List, [], ◌∷◌, length, arith, ◌==◌, leb, Bool-cases,
  inl, inr, Bytes, bytes_eq→eq,
}
use bfe.BytePool.{IBytePool}
use bfe.NodePool
use bfe.NodePool.{Link, Run, ok, err, SetError, recycle_node}
use bfe.NodePool.Chains.{IsChain, has_key}
use bfe.NodePool.Partition.{}
use bfe.HashSet.{HashSet, add, remove, exist, is_full}
use bfe.HashSet.Invariant.{IsWf, Removes-has_key}
use bfe.HashSet.Exist.{slot, at_slot, node_exist, validate, exist-has_key}
use bfe.HashSet.Add.{added-IsWf, added-has_key, add-added}
use bfe.HashSet.Unlink.{unlinked_set-IsWf, unlinked_set-has_key}
use bfe.HashSet.Remove.{Removal, absent, gone, Removal-remove}
use bfe.HashSet.Keys.{
  is_member, erase, NoRepeats, add_key, remove_key, has_member, erase-absent, length-erase,
  is_member-erase, NoRepeats-erase,
}

module _ {P : Type 0} (pool : IBytePool P) (hash : Bytes → ℕ) (n s : ℕ) where
  -- The set is well-formed, and these are its keys.
  pub record Represents (t : HashSet P) (l : List Bytes) : Type 0 where
    pub chains : ℕ → List ℕ
    pub owner : ℕ → ℕ
    pub key : ℕ → Bytes
    pub wf : IsWf pool hash t chains owner key n s
    pub same : (x : Bytes) → is_member x l ≡ has_key key x (chains (hash x % t.ha_size))
    pub size : length l ≡ t.np.elem_num
    pub no_repeats : NoRepeats l

  -- Both fail with the same error, or both end with the same keys.
  pub data Agree : Run (HashSet P) → Run (List Bytes) → Type 0 where
    agree : {t : HashSet P} {l : List Bytes} → Represents t l → Agree (ok t) (ok l)
    failed : (e : SetError) → Agree (err e) (err e)

  pub is_full-length :
      (t : HashSet P) (l : List Bytes) → Represents t l → is_full pool hash t ≡ leb n (length l)
  unfolding is_full NodePool.full
  is_full-length t l v = let c = v.wf.capacity in let z = v.size in rw (c, z) refl

  pub exist-has_member :
      (t : HashSet P) (l : List Bytes) (k : Bytes)
      → Represents t l
      → exist pool hash t k ≡ ok (has_member s l k)
  unfolding has_member
  exist-has_member t l k v =
      let e = v.same k in rw e (exist-has_key pool hash t v.chains v.owner v.key n s v.wf k)

  -- A key that the set does not have, with a free node.
  add-new :
      (t : HashSet P) (l : List Bytes) (k : Bytes) (v : Represents t l) (nodes : List ℕ)
      → v.chains t.ha_size ≡ nodes
      → IsChain t.np.array t.np.free_node nodes
      → is_full pool hash t ≡ false
      → leb (length k) s ≡ true
      → pool.takes s k ≡ true
      → is_member k l ≡ false
      → Agree (add pool hash t k) (ok (k ∷ l))
  unfolding is_member
  add-new t l k v [] e c f short takes new =
      let cells = v.wf.all_nodes in
      let z = v.size in
      let full = is_full-length t l v in let none_free = ap length e in absurd (ground arith)
  add-new t l k v (node ∷ ns) e (free, (next, g, c)) f short takes new =
      let fresh = sym (v.same k) ∙ new in
      rw
        (add-added pool hash t v.chains v.owner v.key n s v.wf k node ns e next g c takes fresh f
          short free)
        (agree (record {
          chains = _;
          owner = _;
          key = _;
          wf =
              added-IsWf pool hash t v.chains v.owner v.key n s v.wf k node ns e next g c takes
                fresh;
          same = λ x.
              let old = v.same x in
              rw old (
                sym (
                  added-has_key pool hash t v.chains v.owner v.key n s v.wf k node ns e next g c
                    takes fresh x));
          size = let z = v.size in omega arith;
          no_repeats = (new, v.no_repeats);
        }))

  module _ (t : HashSet P) (l : List Bytes) (k : Bytes) (v : Represents t l) where
    add-full : is_full pool hash t ≡ true → Agree (add pool hash t k) (err SetError.set_full)
    unfolding add
    add-full f = rw f (failed _)

    add-long :
        is_full pool hash t ≡ false
        → leb (length k) s ≡ false
        → Agree (add pool hash t k) (err SetError.key_too_long)
    unfolding add
    add-long f h = rw (f, validate pool hash t v.chains v.owner v.key n s v.wf k, h) (failed _)

    add-old :
        is_full pool hash t ≡ false
        → leb (length k) s ≡ true
        → is_member k l ≡ true
        → Agree (add pool hash t k) (ok l)
    unfolding add
    add-old f h m =
        let e = sym (v.same k) ∙ m in
        rw
          (
            f,
            validate pool hash t v.chains v.owner v.key n s v.wf k,
            h,
            at_slot pool hash t v.chains v.owner v.key n s v.wf k,
            node_exist pool hash t v.chains v.owner v.key n s v.wf k,
            e,
          )
          (agree v)

  pub add-Agree :
      (t : HashSet P) (l : List Bytes) (k : Bytes)
      → Represents t l
      → (leb (length k) s ≡ true → pool.takes s k ≡ true)
      → Agree (add pool hash t k) (add_key n s l k)
  unfolding add_key
  add-Agree t l k v takes = elim (Bool-cases (is_full pool hash t)) [
    | inl f ↦ rw (← is_full-length t l v, f) (add-full t l k v f)
    | inr f ↦ elim (Bool-cases (leb (length k) s)) [
      | inr h ↦ rw (← is_full-length t l v, f, h) (add-long t l k v f h)
      | inl h ↦ elim (Bool-cases (is_member k l)) [
        | inl m ↦ rw (← is_full-length t l v, f, h, m) (add-old t l k v f h m)
        | inr m ↦
            let c = v.wf.parts.linked t.ha_size in
            let e : (t.ha_size == t.ha_size) ≡ true = ground arith in
            rw (← is_full-length t l v, f, h, m)
              (add-new t l k v (v.chains t.ha_size) refl (rw e at c) f h (takes h) m)
      ]
    ]
  ]

  remove-long :
      (t : HashSet P) (l : List Bytes) (k : Bytes)
      → Represents t l
      → leb (length k) s ≡ false
      → Agree (remove pool hash t k) (err SetError.key_too_long)
  unfolding remove
  remove-long t l k v h = rw (validate pool hash t v.chains v.owner v.key n s v.wf k, h) (failed _)

  Removal-Agree :
      (t : HashSet P) (l : List Bytes) (k : Bytes) (v : Represents t l) (result : Run (HashSet P))
      → Removal pool hash t v.chains v.owner v.key n s v.wf k result
      → Agree result (ok (erase k l))
  unfolding recycle_node
  Removal-Agree t l k v result (absent h) =
      let e = v.same k ∙ h in rw (erase-absent k l e) (agree v)
  Removal-Agree t l k v result (gone node ns link array found r c frame size) =
      let k_node = bytes_eq→eq k (v.key node) found in
      let b = slot pool hash t v.chains v.owner v.key n s v.wf k in
      let there : has_key v.key k (v.chains b) ≡ true =
        ap (λ y. has_key v.key y (v.chains b)) k_node ∙ Removes-has_key v.key r in
      let member : is_member k l ≡ true = v.same k ∙ there in
      agree (record {
        chains = _;
        owner = _;
        key = _;
        wf =
            unlinked_set-IsWf pool hash t v.chains v.owner v.key n s v.wf k node ns link array found
              r c frame size;
        same = λ x.
            let old = v.same x in
            is_member-erase k x l v.no_repeats
            ∙ (rw old (
                sym (
                  unlinked_set-has_key pool hash t v.chains v.owner v.key n s v.wf k node ns link
                    array found r c frame size x)));
        size = let z = v.size in omega (arith, length-erase k l member);
        no_repeats = NoRepeats-erase k l v.no_repeats;
      })

  pub remove-Agree :
      (t : HashSet P) (l : List Bytes) (k : Bytes)
      → Represents t l
      → Agree (remove pool hash t k) (remove_key s l k)
  unfolding remove_key
  remove-Agree t l k v = elim (Bool-cases (leb (length k) s)) [
    | inr h ↦ rw h (remove-long t l k v h)
    | inl h ↦
        rw h
          (Removal-Agree t l k v _ (Removal-remove pool hash t v.chains v.owner v.key n s v.wf k h))
  ]
