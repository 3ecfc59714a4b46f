-- ===== src/Slb/Simple/Laps.antt =====
-- The loop of `simpleBalance` ends: within one lap it finds a backend or knows that all are down,
-- and a second lap, after the weights are reset, finds one.
use mathlib.Core.Path.{subst}
use native.Mathlib.Decide.{ℕ_discrete}
use bfe.Common.{
  ℕ, zero, suc, ◌+◌, ◌-◌, ◌≤◌, ◌<◌, ◌≡◌, refl, sym, ap, ◌∙◌, ◌≢◌, ◌⊎◌, inl, inr, true, false, some,
  arith, if◌then◌else◌, ltb, get_elem?, length, Bool-cases,
}
use bfe.Common.Int.{}
use bfe.Slb.Backends.{BackendRr}
use bfe.Slb.Balancer.{BalanceRr, BackendList, Result, ok, err, all_backends_down, reset_weight}
use bfe.Slb.Reset.{get-reset, get-reset_back}
use bfe.Slb.Simple.{Scan, scan, is_ready, move_to_next, scan_fuel, started, finish, simple_balance}
use bfe.Slb.Simple.Round.{
  is_usable, NoNegativeWeight, get_elem?-total, get_elem?-lt, scan_more, scan_end, moved, on_next,
  on_down, on_reset, FoundIn, found_now,
}

-- In the second lap, which starts at 0, a ready backend at position p is reached.
second_lap :
    (f : ℕ) (s : Scan) (p : ℕ) (b : BackendRr)
    → s.start ≡ 0
    → s.next ≤ p
    → p < s.next + f
    → get_elem? s.backends p ≡ some b
    → is_ready b ≡ true
    → FoundIn s.backends (scan f s)
unfolding move_to_next
second_lap zero s p b z h l g r = absurd (omega arith)
second_lap (suc f) s p b z h l g r =
    let len = get_elem?-lt s.backends p b g in
    let (x, gx) = get_elem?-total s.backends s.next (omega arith) in
    elim (Bool-cases (is_ready x)) [
      | inl now ↦ found_now f s x gx now
      | inr not_now ↦
          let apart : s.next ≢ p = λ e. ground (arith, ap (get_elem? s.backends) e) in
          let e : move_to_next s.next s.backends ≡ s.next + 1 = ground arith in
          let o = on_next x s (s.next + 1) e (omega arith) in
          subst (FoundIn s.backends) (sym (scan_more f s _ x gx not_now o)) (
            second_lap f (record s { next = s.next + 1; all_down = moved x s }) p b z (omega arith)
              (omega arith) g r)
    ]

-- The positions that the first lap has seen.
abbrev Seen : Scan → ℕ → Type 0
Seen s p =
    ((s.start ≤ s.next) × (s.start ≤ p) × (p < s.next))
    ⊎ ((s.next < s.start) × ((s.start ≤ p) ⊎ (p < s.next)))

record Lap (s : Scan) : Type 0 where
  start_lt : s.start < length s.backends
  next_lt : s.next < length s.backends
  down :
      s.all_down ≡ true
      → (p : ℕ) (b : BackendRr) → Seen s p
      → get_elem? s.backends p ≡ some b
      → is_usable b ≡ false
  up :
      s.all_down ≡ false
      → (p : ℕ) × (b : BackendRr) × (get_elem? s.backends p ≡ some b) × (is_usable b ≡ true)

abbrev left : Scan → ℕ
left s = if ltb s.next s.start then s.start - s.next else length s.backends - s.next + s.start

-- How the loop ends: with a backend, or with the news that none is usable.
abbrev pub Ends : BackendList → Scan × Result ℕ → Type 0
Ends bs r =
    FoundIn bs r
    ⊎ ((r.1 ≡ err all_backends_down)
        × ((p : ℕ) (b : BackendRr) → get_elem? bs p ≡ some b → is_usable b ≡ false))

seen_now :
    (s : Scan) (x : BackendRr) (p : ℕ) (b : BackendRr)
    → get_elem? s.backends s.next ≡ some x
    → get_elem? s.backends p ≡ some b
    → p ≡ s.next
    → moved x s ≡ true
    → is_usable b ≡ false
seen_now s x p b g gb e d =
    let same : b ≡ x = ground (arith, ap (get_elem? s.backends) e) in rw same (ground arith)

someone_usable :
    (s : Scan) (x : BackendRr)
    → Lap s
    → get_elem? s.backends s.next ≡ some x
    → moved x s ≡ false
    → (p : ℕ) × (b : BackendRr) × (get_elem? s.backends p ≡ some b) × (is_usable b ≡ true)
someone_usable s x l g u = elim (Bool-cases (is_usable x)) [
  | inl usable ↦ (s.next, x, g, usable)
  | inr not_usable ↦ l.up (ground arith)
]

Lap-next :
    (s : Scan) (x : BackendRr) (n : ℕ)
    → Lap s
    → get_elem? s.backends s.next ≡ some x
    → move_to_next s.next s.backends ≡ n
    → n ≢ s.start
    → Lap (record s { next = n; all_down = moved x s })
unfolding move_to_next
Lap-next s x n l g e h = record {
  start_lt = l.start_lt;
  next_lt = ground (arith, l.next_lt);
  down = λ d p b seen gb. elim (ℕ_discrete p s.next) [
    | yes now ↦ seen_now s x p b g gb now d
    | no before ↦ l.down (ground arith) p b (ground (arith, get_elem?-lt s.backends p b gb)) gb
  ];
  up = someone_usable s x l g;
}

-- When the first lap is over it has seen every position.
Lap-over :
    (s : Scan) (x : BackendRr)
    → Lap s
    → get_elem? s.backends s.next ≡ some x
    → move_to_next s.next s.backends ≡ s.start
    → moved x s ≡ true
    → (p : ℕ) (b : BackendRr) → get_elem? s.backends p ≡ some b
    → is_usable b ≡ false
unfolding move_to_next
Lap-over s x l g wraps d p b gb = elim (ℕ_discrete p s.next) [
  | yes now ↦ seen_now s x p b g gb now d
  | no before ↦
      l.down (ground arith) p b
        (ground (arith, get_elem?-lt s.backends p b gb, l.start_lt, l.next_lt)) gb
]

found_after_reset :
    (f : ℕ) (s : Scan) (x : BackendRr)
    → NoNegativeWeight s.backends
    → Lap s
    → get_elem? s.backends s.next ≡ some x
    → is_ready x ≡ false
    → move_to_next s.next s.backends ≡ s.start
    → moved x s ≡ false
    → length s.backends ≤ f
    → FoundIn s.backends (scan (suc f) s)
found_after_reset f s x w l g r wraps u h =
    let (p, b, gb, usable) = someone_usable s x l g u in
    let ready : is_ready (record b { current = b.weight }) ≡ true = ground (arith, w p b gb) in
    let s' : Scan = record {
      backends = reset_weight s.backends;
      start = 0;
      next = 0;
      all_down = false;
    } in
    let lt = get_elem?-lt s.backends p b gb in
    let found =
      second_lap f s' p _ refl (omega arith) (omega arith) (get-reset s.backends p b gb) ready in
    let (c, gc, _, ac) = get-reset_back s.backends found.position found.backend found.there in
    subst (FoundIn s.backends) (sym (scan_more f s s' x g r (on_reset x s wraps u))) (record {
      position = found.position;
      backend = c;
      result = found.result;
      there = gc;
      avail = ac ∙ found.avail;
    })

first-Lap :
    (f : ℕ) (s : Scan)
    → NoNegativeWeight s.backends
    → Lap s
    → left s + length s.backends < f
    → Ends s.backends (scan f s)
unfolding move_to_next
first-Lap zero s w l h = absurd (omega arith)
first-Lap (suc f) s w l h =
    let (x, g) = get_elem?-total s.backends s.next l.next_lt in
    elim (Bool-cases (is_ready x)) [
      | inl now ↦ inl (found_now f s x g now)
      | inr not_now ↦ elim (ℕ_discrete (move_to_next s.next s.backends) s.start) [
        | no further ↦
            let o = on_next x s _ refl further in
            subst (Ends s.backends) (sym (scan_more f s _ x g not_now o)) (
              first-Lap f (record s { next = move_to_next s.next s.backends; all_down = moved x s })
                w (Lap-next s x _ l g refl further) (ground (arith, l.start_lt, l.next_lt)))
        | yes wraps ↦ elim (Bool-cases (moved x s)) [
          | inl down ↦ inr (
            ap (λ p. p.1) (scan_end f s x g not_now (on_down x s wraps down)),
            λ p b gb. Lap-over s x l g wraps down p b gb,
          )
          | inr up ↦ inl (
              found_after_reset f s x w l g not_now wraps up
                (ground (arith, l.start_lt, l.next_lt)))
        ]
      ]
    ]

finish-result : (brr : BalanceRr) (s : Scan) (r : Result ℕ) → (finish brr s r).1 ≡ r
unfolding finish
finish-result brr s (ok i) = refl
finish-result brr s (err e) = refl

Lap-started : (brr : BalanceRr) → brr.next < length brr.backends → Lap (started brr)
Lap-started brr h = record {
  start_lt = h;
  next_lt = h;
  down = λ d p b seen g. absurd (omega arith);
  up = λ u. cc;
}

-- The call at a sub-cluster that has backends, none with a negative weight, and a valid `next`: it
-- never runs on for ever or out of range. It returns an available backend of the list; or it fails,
-- and then every backend is unavailable or has the weight 0.
pub simple_balance-Ends :
    (brr : BalanceRr)
    → brr.next < length brr.backends
    → NoNegativeWeight brr.backends
    → ((i : ℕ) × (b : BackendRr) × ((simple_balance brr).1 ≡ ok i)
        × (get_elem? brr.backends i ≡ some b)
        × (b.backend.avail ≡ true))
      ⊎ (((simple_balance brr).1 ≡ err all_backends_down)
          × ((p : ℕ) (b : BackendRr) → get_elem? brr.backends p ≡ some b → is_usable b ≡ false))
unfolding simple_balance
simple_balance-Ends brr h w =
    elim (first-Lap (scan_fuel brr.backends) (started brr) w (Lap-started brr h)
      (ground (arith, h))) [
        | inl f ↦ inl (
          f.position,
          f.backend,
          finish-result brr (scan (scan_fuel brr.backends) (started brr)).0 _ ∙ f.result,
          f.there,
          f.avail,
        )
        | inr (e, down) ↦
            inr (finish-result brr (scan (scan_fuel brr.backends) (started brr)).0 _ ∙ e, down)
      ]
