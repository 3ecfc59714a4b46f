-- ===== src/Slb/LeastConns/Minimal.antt =====
-- The candidates of `leastConnsBalance` have the fewest connections for their weight.
use mathlib.Core.Path.{subst}
use native.Mathlib.Nat.{}
use bfe.Common.{
  ℕ, zero, suc, ◌+◌, ◌*◌, ◌≤◌, ◌<◌, ◌≡◌, refl, ap, ◌∙◌, true, false, Option, none, some, List, [],
  ◌∷◌, if◌then◌else◌, get_elem?, arith, Bool-cases, inl, inr,
}
use bfe.Common.Int.{pos, neg_part}
use bfe.Slb.Backends.{BackendRr}
use bfe.Slb.Balancer.{BackendList, ok, is_eligible}
use bfe.Slb.SlowStart.{}
use bfe.Slb.Smooth.Fair.{eligible_weight}
use bfe.Slb.LeastConns.{Candidates, compare_candidate, least_conns_loop, least_conns_balance}
use bfe.Slb.LeastConns.Choice.{of_candidates}
use bfe.Slb.LeastConns.Ratio.{AtMost, AtMost-trans}
use bfe.Slb.LeastConns.Best.{conns, weight, Beats, AllBest, IsBest, IsStart, compare_candidate-any}

false_not_true : false ≡ true → ⊥
false_not_true h = cc

none_not_some : {b : BackendRr} → ◌≡◌ {A = Option BackendRr} none (some b) → ⊥
none_not_some h = cc

nothing_at : {p : ℕ} → ◌≡◌ {A = Option ℕ} none (some p) → ⊥
nothing_at h = cc

some_position : {a b : ℕ} → ◌≡◌ {A = Option ℕ} (some a) (some b) → a ≡ b
some_position h = cc

some_same : {a b : BackendRr} → ◌≡◌ {A = Option BackendRr} (some a) (some b) → a ≡ b
some_same h = cc

-- What the body of the loop makes of the candidates, for any backend.
abbrev pub Steps : BackendList → Candidates → Candidates → BackendRr → Type 0
Steps whole c c' b =
    IsStart whole c'
    × (IsBest whole c → IsBest whole c' × ((d v : ℕ) → 0 < v → Beats c d v → Beats c' d v))
    × (is_eligible b ≡ true → IsBest whole c' × Beats c' (conns b) (weight b))

loop_body-Steps :
    (whole : BackendList) (i : ℕ) (b : BackendRr) (c : Candidates)
    → neg_part b.backend.conn_num ≡ 0
    → get_elem? whole i ≡ some b
    → IsStart whole c
    → Steps whole c (if is_eligible b then compare_candidate i b c else c) b
loop_body-Steps whole i b c n g s = elim (Bool-cases (is_eligible b)) [
  | inl e ↦
      let (x, y, z) = compare_candidate-any whole i b c n e g s in
      rw e (inr x, λ h. (x, z h), λ _. (x, y))
  | inr e ↦ rw e (s, λ h. (h, λ d v y k. k), λ f. absurd (false_not_true f))
]

-- Every backend of the list stands in the whole list, from position i on.
abbrev pub StandsAt : BackendList → ℕ → BackendList → Type 0
StandsAt whole i bs =
    (k : ℕ) (b : BackendRr)
    → get_elem? bs k ≡ some b
    → (get_elem? whole (i + k) ≡ some b) × (neg_part b.backend.conn_num ≡ 0)

StandsAt-tail :
    (whole : BackendList) (i : ℕ) (b : BackendRr) (bs : BackendList)
    → StandsAt whole i (b ∷ bs)
    → StandsAt whole (suc i) bs
StandsAt-tail whole i b bs t k x g =
    let e : i + suc k ≡ suc i + k = omega arith in let (h, n) = t (suc k) x g in (rw e at h, n)

StandsAt-head :
    (whole : BackendList) (i : ℕ) (b : BackendRr) (bs : BackendList)
    → StandsAt whole i (b ∷ bs)
    → (get_elem? whole i ≡ some b) × (neg_part b.backend.conn_num ≡ 0)
StandsAt-head whole i b bs t =
    let e : i + 0 ≡ i = omega arith in let (h, n) = t 0 b refl in (rw e at h, n)

-- The loop keeps what was beaten before it.
least_conns_loop-keeps :
    (whole : BackendList) (i : ℕ) (bs : BackendList) (c : Candidates)
    → StandsAt whole i bs
    → IsBest whole c
    → IsBest whole (least_conns_loop i bs c)
      × ((d v : ℕ) → 0 < v → Beats c d v → Beats (least_conns_loop i bs c) d v)
unfolding least_conns_loop
least_conns_loop-keeps whole i [] c t h = (h, λ d v y k. k)
least_conns_loop-keeps whole i (b ∷ bs) c t h =
    let (g, n) = StandsAt-head whole i b bs t in
    let (_, f, _) = loop_body-Steps whole i b c n g (inr h) in
    let (x, y) = f h in
    let (u, v) = least_conns_loop-keeps whole (suc i) bs _ (StandsAt-tail whole i b bs t) x in
    (u, λ d w p k. v d w p (y d w p k))

least_conns_loop-IsStart :
    (whole : BackendList) (i : ℕ) (bs : BackendList) (c : Candidates)
    → StandsAt whole i bs
    → IsStart whole c
    → IsStart whole (least_conns_loop i bs c)
unfolding least_conns_loop
least_conns_loop-IsStart whole i [] c t s = s
least_conns_loop-IsStart whole i (b ∷ bs) c t s =
    let (g, n) = StandsAt-head whole i b bs t in
    let (u, _, _) = loop_body-Steps whole i b c n g s in
    least_conns_loop-IsStart whole (suc i) bs _ (StandsAt-tail whole i b bs t) u

-- The loop beats every eligible backend that it sees.
least_conns_loop-Beats :
    (whole : BackendList) (i : ℕ) (bs : BackendList) (c : Candidates)
    → StandsAt whole i bs
    → IsStart whole c
    → (k : ℕ) (b : BackendRr) → get_elem? bs k ≡ some b
    → is_eligible b ≡ true
    → Beats (least_conns_loop i bs c) (conns b) (weight b)
unfolding least_conns_loop
least_conns_loop-Beats whole i [] c t s k x f e = absurd (none_not_some f)
least_conns_loop-Beats whole i (b ∷ bs) c t s zero x f e =
    let b_x : b ≡ x = some_same f in
    let e_b : is_eligible b ≡ true = ap is_eligible b_x ∙ e in
    let (g, n) = StandsAt-head whole i b bs t in
    let (_, _, z) = loop_body-Steps whole i b c n g s in
    let (y, w) = z e_b in
    let (_, v) = least_conns_loop-keeps whole (suc i) bs _ (StandsAt-tail whole i b bs t) y in
    subst
      (λ z.
        Beats (least_conns_loop (suc i) bs (if is_eligible b then compare_candidate i b c else c))
          (conns z) (weight z))
      b_x (v (conns b) (weight b) (eligible_weight b e_b).1 w)
least_conns_loop-Beats whole i (b ∷ bs) c t s (suc k) x f e =
    let (g, n) = StandsAt-head whole i b bs t in
    let (u, _, _) = loop_body-Steps whole i b c n g s in
    least_conns_loop-Beats whole (suc i) bs _ (StandsAt-tail whole i b bs t) u k x f e

abbrev pub no_candidates : Candidates
no_candidates = record { positions = []; best_conn_num = pos 0; best_weight = pos 0 }

-- No backend counts fewer than 0 connections.
abbrev pub AllCounted : BackendList → Type 0
AllCounted bs = (k : ℕ) (b : BackendRr) → get_elem? bs k ≡ some b → neg_part b.backend.conn_num ≡ 0

abbrev pub LeastAt : BackendList → ℕ → BackendRr → Type 0
LeastAt bs p x =
    (b : BackendRr) × (get_elem? bs p ≡ some b) × (conns b * weight x ≤ conns x * weight b)

AllBest-at :
    (bs : BackendList) (d v : ℕ) (ps : List ℕ) (j p : ℕ) (x : BackendRr)
    → 0 < v
    → AllBest bs d v ps
    → get_elem? ps j ≡ some p
    → AtMost d v (conns x) (weight x)
    → LeastAt bs p x
AllBest-at bs d v [] j p x q a g h = absurd (nothing_at g)
AllBest-at bs d v (r ∷ ps) zero p x q a g h =
    let ((b, f, _, k), _) = a in
    let same : r ≡ p = some_position g in (b, rw same at f, AtMost-trans _ _ _ _ _ _ q k h)
AllBest-at bs d v (r ∷ ps) (suc j) p x q a g h = AllBest-at bs d v ps j p x q a.1 g h

IsStart-LeastAt :
    (bs : BackendList) (c : Candidates) (j p : ℕ) (x : BackendRr)
    → IsStart bs c
    → get_elem? c.positions j ≡ some p
    → Beats c (conns x) (weight x)
    → LeastAt bs p x
IsStart-LeastAt bs c j p x (inl e) g h = absurd (nothing_at (rw e at g))
IsStart-LeastAt bs c j p x (inr b) g h = AllBest-at bs _ _ c.positions j p x b.positive b.all g h

ok_positions : (ps is : List ℕ) → of_candidates ps ≡ ok is → ps ≡ is
ok_positions [] is h = cc
ok_positions (p ∷ ps) is h = cc

-- When no backend counts fewer than 0 connections and least connections find candidates, each
-- candidate is a backend of the list whose connections for its weight are at most those of any
-- backend that is available and has a positive weight (the fractions are compared by multiplying
-- crosswise).
pub least_conns_balance-LeastAt :
    (bs : BackendList) (is : List ℕ) (j p k : ℕ) (x : BackendRr)
    → AllCounted bs
    → least_conns_balance bs ≡ ok is
    → get_elem? is j ≡ some p
    → get_elem? bs k ≡ some x
    → is_eligible x ≡ true
    → (b : BackendRr) × (get_elem? bs p ≡ some b) × (conns b * weight x ≤ conns x * weight b)
unfolding least_conns_balance
least_conns_balance-LeastAt bs is j p k x n h g f e =
    let c = least_conns_loop 0 bs no_candidates in
    let same : c.positions ≡ is = ok_positions c.positions is h in
    IsStart-LeastAt bs c j p x (least_conns_loop-IsStart bs 0 bs no_candidates whole (inl refl))
      (rw same g) (least_conns_loop-Beats bs 0 bs no_candidates whole (inl refl) k x f e)
  where
    whole : StandsAt bs 0 bs
    whole i b t = let e : i ≡ 0 + i = omega arith in (rw e at t, n i b t)
