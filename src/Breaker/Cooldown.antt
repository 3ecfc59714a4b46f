-- ===== src/Breaker/Cooldown.antt =====
-- What an open and a half-open breaker let through, over any calls that follow.
use bfe.Common.{ℕ, ◌+◌, ◌≤◌, ◌<◌, ◌≡◌, refl, if◌then◌else◌, Bool, true, false, List, [], ◌∷◌, arith}
use bfe.Common.Int.{pos_part}
use bfe.Breaker.{EppBreaker, epp_closed, epp_open, epp_half_open, allow, record_result, update_conf}
use bfe.Breaker.Machine.{Op, allows, records, configures, step, run}

-- The answers that a list of calls gets to its calls of `allow`.
pub answers : List Op → EppBreaker → List Bool
answers [] b = []
answers (allows now ∷ os) b = let (b', ok) = allow now b in ok ∷ answers os b'
answers (records now ok ∷ os) b = answers os (record_result now ok b)
answers (configures conf ∷ os) b = answers os (update_conf conf b)

pub none_allowed : List Bool → Bool
none_allowed [] = true
none_allowed (ok ∷ oks) = if ok then false else none_allowed oks

-- Calls of `allow` and `record`, those of `allow` before the deadline.
abbrev pub AllBefore : ℕ → List Op → Type 0
AllBefore deadline [] = Unit
AllBefore deadline (allows now ∷ os) = (now < deadline) × AllBefore deadline os
AllBefore deadline (records now ok ∷ os) = AllBefore deadline os
AllBefore deadline (configures conf ∷ os) = ⊥

-- An enabled breaker that is open, with a cooldown that is not zero, lets no request through before its cooldown is over, whatever
-- results of earlier requests come in meanwhile.
pub open_blocks :
    (os : List Op) (b : EppBreaker)
    → b.state ≡ epp_open
    → b.conf.disabled ≡ false
    → 0 < pos_part b.conf.open_timeout
    → AllBefore (b.opened_at + pos_part b.conf.open_timeout) os
    → none_allowed (answers os b) ≡ true
unfolding answers none_allowed allow record_result
open_blocks [] b o d t h = refl
open_blocks (allows now ∷ os) b o d t h = ground (arith, open_blocks os b o d t h.1)
open_blocks (records now ok ∷ os) b o d t h = ground (arith, open_blocks os b o d t h)
open_blocks (configures conf ∷ os) b o d t h = absurd h

abbrev pub OnlyAllows : List Op → Type 0
OnlyAllows [] = Unit
OnlyAllows (allows now ∷ os) = OnlyAllows os
OnlyAllows (records now ok ∷ os) = ⊥
OnlyAllows (configures conf ∷ os) = ⊥

probing_blocks :
    (os : List Op) (b : EppBreaker)
    → b.state ≡ epp_half_open
    → b.conf.disabled ≡ false
    → b.half_open_inflight ≡ true
    → OnlyAllows os
    → none_allowed (answers os b) ≡ true
unfolding answers none_allowed allow
probing_blocks [] b s d f h = refl
probing_blocks (allows now ∷ os) b s d f h = ground (arith, probing_blocks os b s d f h)
probing_blocks (records now ok ∷ os) b s d f h = absurd h
probing_blocks (configures conf ∷ os) b s d f h = absurd h

-- Once the cooldown of an enabled, open breaker is over, the first request is let through as a
-- probe, and no other until the result of one has come in.
pub cooldown_one_probe :
    (now : ℕ) (os : List Op) (b : EppBreaker)
    → b.state ≡ epp_open
    → b.conf.disabled ≡ false
    → pos_part b.conf.open_timeout + b.opened_at ≤ now
    → OnlyAllows os
    → ((allow now b).1 ≡ true) × (none_allowed (answers os (allow now b).0) ≡ true)
unfolding allow
cooldown_one_probe now os b s d h o =
    (ground arith, probing_blocks os (allow now b).0 (ground arith) (ground arith) (ground arith) o)

-- A breaker whose probe is in flight.
record IsProbing (timeout : ℕ) (b : EppBreaker) : Type 0 where
  pub half_open : b.state ≡ epp_half_open
  pub inflight : b.half_open_inflight ≡ true
  pub enabled : b.conf.disabled ≡ false
  pub same : pos_part b.conf.open_timeout ≡ timeout

allow-IsProbing : (now t : ℕ) (b : EppBreaker) → IsProbing t b → IsProbing t (allow now b).0
unfolding allow
allow-IsProbing now t b p =
    let s = p.half_open in
    let f = p.inflight in
    let d = p.enabled in
    let e = p.same in
    record {
      half_open = ground arith;
      inflight = ground arith;
      enabled = ground arith;
      same = ground arith;
    }

run-IsProbing :
    (os : List Op) (t : ℕ) (b : EppBreaker) → OnlyAllows os → IsProbing t b → IsProbing t (run os b)
unfolding run step
run-IsProbing [] t b o p = p
run-IsProbing (allows now ∷ os) t b o p =
    run-IsProbing os t (allow now b).0 o (allow-IsProbing now t b p)
run-IsProbing (records now ok ∷ os) t b o p = absurd o
run-IsProbing (configures conf ∷ os) t b o p = absurd o

started-IsProbing :
    (now : ℕ) (b : EppBreaker)
    → b.state ≡ epp_open
    → b.conf.disabled ≡ false
    → pos_part b.conf.open_timeout + b.opened_at ≤ now
    → IsProbing (pos_part b.conf.open_timeout) (allow now b).0
unfolding allow
started-IsProbing now b s d h = record {
  half_open = ground arith;
  inflight = ground arith;
  enabled = ground arith;
  same = ground arith;
}

success_closes :
    (now t : ℕ) (b : EppBreaker)
    → IsProbing t b
    → (later : ℕ)
    → ((record_result now true b).state ≡ epp_closed)
      × ((record_result now true b).count ≡ 0)
      × ((allow later (record_result now true b)).1 ≡ true)
unfolding record_result allow
success_closes now t b p later =
    let s = p.half_open in
    let f = p.inflight in
    let d = p.enabled in let e = p.same in (ground arith, ground arith, ground arith)

failure_opens :
    (now t : ℕ) (b : EppBreaker)
    → IsProbing t b
    → let b' = record_result now false b in
      (b'.state ≡ epp_open)
      × (b'.opened_at ≡ now)
      × (b'.conf.disabled ≡ false)
      × (pos_part b'.conf.open_timeout ≡ t)
unfolding record_result
failure_opens now t b p =
    let s = p.half_open in
    let f = p.inflight in
    let d = p.enabled in let e = p.same in (ground arith, ground arith, ground arith, ground arith)

-- Once the cooldown of an enabled, open breaker is over and a request has gone out as a probe, the
-- first result that comes in decides, whatever calls of `allow` come before it: a success closes the
-- breaker with an empty window, and the next request is let through; after a failure no request is
-- let through until a whole cooldown, which is not zero, has passed from that moment.
pub probe_decides :
    (start : ℕ) (os : List Op) (now : ℕ) (b : EppBreaker)
    → b.state ≡ epp_open
    → b.conf.disabled ≡ false
    → 0 < pos_part b.conf.open_timeout
    → pos_part b.conf.open_timeout + b.opened_at ≤ start
    → OnlyAllows os
    → let probing = run os (allow start b).0 in
      let closed = record_result now true probing in
      let opened = record_result now false probing in
      ((later : ℕ)
        → (closed.state ≡ epp_closed) × (closed.count ≡ 0) × ((allow later closed).1 ≡ true))
      × ((later : List Op)
          → AllBefore (now + pos_part b.conf.open_timeout) later
          → none_allowed (answers later opened) ≡ true)
probe_decides start os now b s d z h o =
    let t = pos_part b.conf.open_timeout in
    let p = run-IsProbing os t (allow start b).0 o (started-IsProbing start b s d h) in
    let (state, at, enabled, same) = failure_opens now t (run os (allow start b).0) p in
    (
      success_closes now t (run os (allow start b).0) p,
      λ later before.
          open_blocks later (record_result now false (run os (allow start b).0)) state enabled
            (omega (arith, z, same)) (rw (at, same) before),
    )
