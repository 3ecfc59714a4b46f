-- ===== src/NodePool/Partition.antt =====
-- The lists of one array share no node: each node knows its list. A node moves from list to list.
use mathlib.Core.Path.{subst}
use bfe.Common.{
  ℕ, suc, ◌≡◌, ◌≢◌, ◌<◌, refl, sym, ap, ◌∙◌, some, List, [], ◌∷◌, length, get_elem?, set,
  get_elem?-set_self, get_elem?-set_ne, arith, if◌then◌else◌, ◌==◌, Bool-cases, inl, inr,
}
use bfe.NodePool.{Link}
use bfe.NodePool.Chains.{All, IsChain, Avoids, Distinct, IsChain-set}

abbrev pub update {ℓ} : {A : Type ℓ} → (ℕ → A) → ℕ → A → ℕ → A
update f k v j = if j == k then v else f j

pub record Partition (array : List Link) (heads : ℕ → Link) (chains : ℕ → List ℕ) (owner : ℕ → ℕ)
    : Type 0 where
  pub linked : (b : ℕ) → IsChain array (heads b) (chains b)
  pub owned : (b : ℕ) → All (λ m. owner m ≡ b) (chains b)
  pub distinct : (b : ℕ) → Distinct (chains b)

-- The node is in no list.
abbrev pub Loose : ℕ → (ℕ → List ℕ) → Type 0
Loose n chains = (b : ℕ) → Avoids n (chains b)

pub data Removes (n : ℕ) : List ℕ → List ℕ → Type 0 where
  here : {ns : List ℕ} → Removes n (n ∷ ns) ns
  there : {m : ℕ} {ns ns' : List ℕ} → Removes n ns ns' → Removes n (m ∷ ns) (m ∷ ns')

pub Removes-All :
    {n : ℕ} {ns ns' : List ℕ} (P : ℕ → Type 0) → Removes n ns ns' → All P ns → P n × All P ns'
Removes-All P here a = a
Removes-All P (there r) a = let (x, y) = Removes-All P r a.1 in (x, (a.0, y))

pub Removes-Distinct :
    {n : ℕ} {ns ns' : List ℕ} → Removes n ns ns' → Distinct ns → Avoids n ns' × Distinct ns'
Removes-Distinct here d = d
Removes-Distinct {n} (there {m = m} r) d =
    let (x, y) = Removes-All (λ k. m ≢ k) r d.0 in
    let (u, v) = Removes-Distinct r d.1 in ((λ e. x (sym e), u), (y, v))

pub Removes-length : {n : ℕ} {ns ns' : List ℕ} → Removes n ns ns' → length ns ≡ suc (length ns')
Removes-length here = refl
Removes-length (there r) = ap suc (Removes-length r)

pub IsChain-frame :
    (array array' : List Link) (link : Link) (ns : List ℕ)
    → All (λ m. get_elem? array' m ≡ get_elem? array m) ns
    → IsChain array link ns
    → IsChain array' link ns
IsChain-frame array array' link [] f c = c
IsChain-frame array array' link (n ∷ ns) f (e, (next, g, c)) =
    (e, (next, f.0 ∙ g, IsChain-frame array array' next ns f.1 c))

pub owner-Avoids :
    (owner : ℕ → ℕ) (n b : ℕ) (ns : List ℕ) → owner n ≢ b → All (λ m. owner m ≡ b) ns → Avoids n ns
owner-Avoids owner n b [] h a = tt
owner-Avoids owner n b (m ∷ ns) h a = (λ e. h (ap owner e ∙ a.0), owner-Avoids owner n b ns h a.1)

update-owned :
    (owner : ℕ → ℕ) (n b j : ℕ) (ns : List ℕ)
    → Avoids n ns
    → All (λ m. owner m ≡ j) ns
    → All (λ m. update owner n b m ≡ j) ns
update-owned owner n b j [] a o = tt
update-owned owner n b j (m ∷ ns) a o = (ground (arith, a.0), update-owned owner n b j ns a.1 o.1)

-- A node leaves list a.
pub remove-Partition :
    (array array' : List Link) (heads : ℕ → Link) (chains : ℕ → List ℕ) (owner : ℕ → ℕ) (a n : ℕ)
    (link : Link) (ns : List ℕ)
    → Partition array heads chains owner
    → Removes n (chains a) ns
    → IsChain array' link ns
    → ((b : ℕ) → b ≢ a → All (λ m. get_elem? array' m ≡ get_elem? array m) (chains b))
    → Partition array' (update heads a link) (update chains a ns) owner
      × Loose n (update chains a ns)
remove-Partition array array' heads chains owner a n link ns v r c f =
    (record { linked = linked; owned = owned; distinct = distinct }, loose)
  where
    linked : (b : ℕ) → IsChain array' (update heads a link b) (update chains a ns b)
    linked b = elim (Bool-cases (b == a)) [
      | inl e ↦ rw e c
      | inr e ↦
          rw e (IsChain-frame array array' (heads b) (chains b) (f b (ground arith)) (v.linked b))
    ]

    owned : (b : ℕ) → All (λ m. owner m ≡ b) (update chains a ns b)
    owned b = elim (Bool-cases (b == a)) [
      | inl e ↦
          let same : b ≡ a = ground arith in
          let (_, y) = Removes-All (λ m. owner m ≡ a) r (v.owned a) in rw e (rw same y)
      | inr e ↦ rw e (v.owned b)
    ]

    distinct : (b : ℕ) → Distinct (update chains a ns b)
    distinct b = elim (Bool-cases (b == a)) [
      | inl e ↦ rw e (Removes-Distinct r (v.distinct a)).1
      | inr e ↦ rw e (v.distinct b)
    ]

    loose : (b : ℕ) → Avoids n (update chains a ns b)
    loose b = elim (Bool-cases (b == a)) [
      | inl e ↦ rw e (Removes-Distinct r (v.distinct a)).0
      | inr e ↦
          let (x, _) = Removes-All (λ m. owner m ≡ a) r (v.owned a) in
          let other : owner n ≢ b = ground arith in
          rw e (owner-Avoids owner n b (chains b) other (v.owned b))
    ]

-- A loose node becomes the first of list b.
pub push-Partition :
    (array : List Link) (heads : ℕ → Link) (chains : ℕ → List ℕ) (owner : ℕ → ℕ) (b n : ℕ)
    → Partition array heads chains owner
    → Loose n chains
    → n < length array
    → Partition
        (set array n (heads b))
        (update heads b (some n))
        (update chains b (n ∷ chains b))
        (update owner n b)
push-Partition array heads chains owner b n v l h = record {
  linked = linked;
  owned = owned;
  distinct = distinct;
}
  where
    linked :
        (j : ℕ)
        → IsChain
            (set array n (heads b))
            (update heads b (some n) j)
            (update chains b (n ∷ chains b) j)
    linked j = elim (Bool-cases (j == b)) [
      | inl e ↦ rw e (
        refl,
        (
          heads b,
          get_elem?-set_self array n (heads b) h,
          IsChain-set array (heads b) (chains b) n (heads b) (l b) (v.linked b),
        ),
      )
      | inr e ↦ rw e (IsChain-set array (heads j) (chains j) n (heads b) (l j) (v.linked j))
    ]

    owned : (j : ℕ) → All (λ m. update owner n b m ≡ j) (update chains b (n ∷ chains b) j)
    owned j = elim (Bool-cases (j == b)) [
      | inl e ↦
          let same : j ≡ b = ground arith in
          rw e (
            ground arith,
            subst (λ t. All (λ m. update owner n b m ≡ t) (chains b)) (sym same)
                (update-owned owner n b b (chains b) (l b) (v.owned b)),
          )
      | inr e ↦ rw e (update-owned owner n b j (chains j) (l j) (v.owned j))
    ]

    distinct : (j : ℕ) → Distinct (update chains b (n ∷ chains b) j)
    distinct j = elim (Bool-cases (j == b)) [
      | inl e ↦ rw e (l b, v.distinct b)
      | inr e ↦ rw e (v.distinct j)
    ]

-- A write to a node changes no other.
pub set-frame :
    (array : List Link) (n : ℕ) (v : Link) (ns : List ℕ)
    → Avoids n ns
    → All (λ m. get_elem? (set array n v) m ≡ get_elem? array m) ns
set-frame array n v [] a = tt
set-frame array n v (m ∷ ns) a = (get_elem?-set_ne array v (a.0), set-frame array n v ns a.1)

pub Partition-heads :
    (array : List Link) (heads heads' : ℕ → Link) (chains : ℕ → List ℕ) (owner : ℕ → ℕ)
    → ((b : ℕ) → heads' b ≡ heads b)
    → Partition array heads chains owner
    → Partition array heads' chains owner
Partition-heads array heads heads' chains owner e v = record {
  linked = λ b. rw (e b) (v.linked b);
  owned = v.owned;
  distinct = v.distinct;
}
