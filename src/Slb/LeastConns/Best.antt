-- ===== src/Slb/LeastConns/Best.antt =====
-- What a step of the loop of `leastConnsBalance` makes of the best candidates so far.
use mathlib.Core.Path.{}
use native.Mathlib.Nat.{}
use bfe.Common.{
  ℕ, ◌<◌, ◌≡◌, refl, ◌⊎◌, Bool, true, false, some, List, [], ◌∷◌, ◌++◌, get_elem?, arith, inl, inr,
}
use bfe.Common.Int.{pos_part, neg_part}
use bfe.Slb.Backends.{BackendRr}
use bfe.Slb.Balancer.{BackendList, is_eligible}
use bfe.Slb.SlowStart.{}
use bfe.Slb.Smooth.Fair.{eligible_weight}
use bfe.Slb.LeastConns.{Candidates, compare_candidate}
use bfe.Slb.LeastConns.Choice.{}
use bfe.Slb.LeastConns.Ratio.{AtMost, AtMost-trans, comp_lc_weight-Compared}

abbrev pub conns : BackendRr → ℕ
conns b = pos_part b.backend.conn_num

abbrev pub weight : BackendRr → ℕ
weight b = pos_part b.weight

-- The best ratio so far is at most that of these connections for this weight.
abbrev pub Beats : Candidates → ℕ → ℕ → Type 0
Beats c d v = AtMost (pos_part c.best_conn_num) (pos_part c.best_weight) d v

-- The backends at these positions are as good as the best.
abbrev pub AllBest : BackendList → ℕ → ℕ → List ℕ → Type 0
AllBest whole d v [] = Unit
AllBest whole d v (p ∷ ps) =
    ((b : BackendRr) × (get_elem? whole p ≡ some b)
      × (0 < weight b)
      × AtMost (conns b) (weight b) d v)
    × AllBest whole d v ps

abbrev pub is_none : List ℕ → Bool
is_none [] = true
is_none (p ∷ ps) = false

pub record IsBest (whole : BackendList) (c : Candidates) : Type 0 where
  pub conns_ok : neg_part c.best_conn_num ≡ 0
  pub weight_ok : neg_part c.best_weight ≡ 0
  pub positive : 0 < pos_part c.best_weight
  pub some_one : is_none c.positions ≡ false
  pub all : AllBest whole (pos_part c.best_conn_num) (pos_part c.best_weight) c.positions

AllBest-append :
    (whole : BackendList) (d v : ℕ) (ps : List ℕ) (p : ℕ)
    → AllBest whole d v ps
    → AllBest whole d v (p ∷ [])
    → AllBest whole d v (ps ++ p ∷ [])
AllBest-append whole d v [] p a h = h
AllBest-append whole d v (q ∷ ps) p a h = (a.0, AllBest-append whole d v ps p a.1 h)

-- What a step makes of the candidates: they beat the new backend, and all that they beat before.
abbrev pub Improves : BackendList → Candidates → Candidates → BackendRr → Type 0
Improves whole c c' b =
    IsBest whole c'
    × Beats c' (conns b) (weight b)
    × ((d v : ℕ) → 0 < v → Beats c d v → Beats c' d v)

compare_candidate-Improves :
    (whole : BackendList) (i : ℕ) (b : BackendRr) (c : Candidates) (q : ℕ) (qs : List ℕ)
    → neg_part b.backend.conn_num ≡ 0
    → is_eligible b ≡ true
    → get_elem? whole i ≡ some b
    → IsBest whole (record c { positions = q ∷ qs })
    → Improves whole c (compare_candidate i b (record c { positions = q ∷ qs })) b
unfolding compare_candidate
compare_candidate-Improves whole i b c q qs n e g h =
    let (z, p) = eligible_weight b e in
    elim (comp_lc_weight-Compared c.best_conn_num c.best_weight b.backend.conn_num b.weight
      h.conns_ok h.weight_ok n z) [
        | inl (t, l) ↦ rw t (
          record {
            conns_ok = n;
            weight_ok = z;
            positive = p;
            some_one = refl;
            all = ((b, g, p, omega arith), tt);
          },
          omega arith,
          λ d v y k. AtMost-trans _ _ _ _ d v h.positive (omega (arith, l)) k,
        )
        | inr (inl (t, s, l)) ↦
            rw (t, s)
              (
                record {
                  conns_ok = h.conns_ok;
                  weight_ok = h.weight_ok;
                  positive = h.positive;
                  some_one = refl;
                  all = AllBest-append whole _ _ (q ∷ qs) i h.all ((b, g, p, omega (arith, l)), tt);
                },
                omega (arith, l),
                λ d v y k. k,
              )
        | inr (inr (t, s, l)) ↦ rw (t, s) (h, omega (arith, l), λ d v y k. k)
      ]

-- No candidates yet, or the best ones so far.
abbrev pub IsStart : BackendList → Candidates → Type 0
IsStart whole c = (c.positions ≡ []) ⊎ IsBest whole c

pub compare_candidate-any :
    (whole : BackendList) (i : ℕ) (b : BackendRr) (c : Candidates)
    → neg_part b.backend.conn_num ≡ 0
    → is_eligible b ≡ true
    → get_elem? whole i ≡ some b
    → IsStart whole c
    → IsBest whole (compare_candidate i b c)
      × Beats (compare_candidate i b c) (conns b) (weight b)
      × (IsBest whole c → (d v : ℕ) → 0 < v → Beats c d v → Beats (compare_candidate i b c) d v)
unfolding compare_candidate
compare_candidate-any whole i b c n e g s = go c.positions s
  where
    go :
        (is : List ℕ)
        → IsStart whole (record c { positions = is })
        → IsBest whole (compare_candidate i b (record c { positions = is }))
          × Beats (compare_candidate i b (record c { positions = is })) (conns b) (weight b)
          × (IsBest whole (record c { positions = is })
              → (d v : ℕ) → 0 < v
              → Beats c d v
              → Beats (compare_candidate i b (record c { positions = is })) d v)
    go [] s =
        let (z, p) = eligible_weight b e in
        (
          record {
            conns_ok = n;
            weight_ok = z;
            positive = p;
            some_one = refl;
            all = ((b, g, p, omega arith), tt);
          },
          omega arith,
          λ h. let f = h.some_one in cc,
        )
    go (q ∷ qs) (inl f) = cc
    go (q ∷ qs) (inr h) =
        let (x, y, z) = compare_candidate-Improves whole i b c q qs n e g h in (x, y, λ _. z)
