-- ===== src/Slb/Simple/Round.antt =====
-- One round of the loop of `simpleBalance`, in its cases, and the look-ups in its list.
use mathlib.Core.Path.{}
use native.Mathlib.Decide.{}
use bfe.Common.{
  ℕ, zero, suc, ◌<◌, ◌≡◌, refl, ap, ◌∙◌, ◌≢◌, Bool, true, false, not, ◌&&◌, none, some, [], ◌∷◌,
  arith, if◌then◌else◌, get_elem?, length,
}
use bfe.Common.Int.{pos, neg_part, eqb_ℤ}
use bfe.Slb.Backends.{BackendRr}
use bfe.Slb.Balancer.{BackendList, Result, ok, err, all_backends_down, reset_weight}
use bfe.Slb.Reset.{}
use bfe.Slb.Simple.{Scan, scan, scan_on, visit, is_ready, move_to_next}

-- Available, with a weight that is not 0.
abbrev pub is_usable : BackendRr → Bool
is_usable b = b.backend.avail && not (eqb_ℤ b.weight (pos 0))

abbrev pub NoNegativeWeight : BackendList → Type 0
NoNegativeWeight bs = (k : ℕ) (b : BackendRr) → get_elem? bs k ≡ some b → neg_part b.weight ≡ 0

pub get_elem?-total :
    (bs : BackendList) (i : ℕ) → i < length bs → (b : BackendRr) × (get_elem? bs i ≡ some b)
get_elem?-total [] i h = elim h [ ]
get_elem?-total (b ∷ bs) zero h = (b, refl)
get_elem?-total (b ∷ bs) (suc i) h = get_elem?-total bs i (omega arith)

pub get_elem?-lt :
    (bs : BackendList) (i : ℕ) (b : BackendRr) → get_elem? bs i ≡ some b → i < length bs
get_elem?-lt [] i b h = cc
get_elem?-lt (x ∷ bs) zero b h = omega arith
get_elem?-lt (x ∷ bs) (suc i) b h = omega (arith, get_elem?-lt bs i b h)

-- One round of the loop, in its three cases.
pub scan_ready :
    (f : ℕ) (s : Scan) (b : BackendRr)
    → get_elem? s.backends s.next ≡ some b
    → is_ready b ≡ true
    → scan (suc f) s ≡ (s, ok s.next)
unfolding scan
scan_ready f s b g r = ap (λ o. visit o s (scan f)) g ∙ rw r

pub scan_more :
    (f : ℕ) (s s' : Scan) (b : BackendRr)
    → get_elem? s.backends s.next ≡ some b
    → is_ready b ≡ false
    → scan_on b s ≡ some s'
    → scan (suc f) s ≡ scan f s'
unfolding scan
scan_more f s s' b g r o = ap (λ x. visit x s (scan f)) g ∙ rw r (rw o)

pub scan_end :
    (f : ℕ) (s : Scan) (b : BackendRr)
    → get_elem? s.backends s.next ≡ some b
    → is_ready b ≡ false
    → scan_on b s ≡ none
    → scan (suc f) s ≡ (s, err all_backends_down)
unfolding scan
scan_end f s b g r o = ap (λ x. visit x s (scan f)) g ∙ rw r (rw o)

abbrev pub moved : BackendRr → Scan → Bool
moved b s = if is_usable b then false else s.all_down

-- Where a round leads that found nothing: on, to the end, or to a second lap.
pub on_next :
    (b : BackendRr) (s : Scan) (n : ℕ)
    → move_to_next s.next s.backends ≡ n
    → n ≢ s.start
    → scan_on b s ≡ some (record s { next = n; all_down = moved b s })
unfolding scan_on
on_next b s n e h = rw e (ground arith)

pub on_down :
    (b : BackendRr) (s : Scan)
    → move_to_next s.next s.backends ≡ s.start
    → moved b s ≡ true
    → scan_on b s ≡ none
unfolding scan_on
on_down b s e m = rw (e, m) (ground arith)

pub on_reset :
    (b : BackendRr) (s : Scan)
    → move_to_next s.next s.backends ≡ s.start
    → moved b s ≡ false
    → scan_on b s
      ≡ some (record { backends = reset_weight s.backends; start = 0; next = 0; all_down = false })
unfolding scan_on
on_reset b s e m = rw (e, m) (ground arith)

-- A backend in the list, for which the loop may stop.
pub record FoundIn (bs : BackendList) (r : Scan × Result ℕ) : Type 0 where
  pub position : ℕ
  pub backend : BackendRr
  pub result : r.1 ≡ ok position
  pub there : get_elem? bs position ≡ some backend
  pub avail : backend.backend.avail ≡ true

pub found_now :
    (f : ℕ) (s : Scan) (b : BackendRr)
    → get_elem? s.backends s.next ≡ some b
    → is_ready b ≡ true
    → FoundIn s.backends (scan (suc f) s)
found_now f s b g r = record {
  position = s.next;
  backend = b;
  result = ap (λ p. p.1) (scan_ready f s b g r);
  there = g;
  avail = ground arith;
}
