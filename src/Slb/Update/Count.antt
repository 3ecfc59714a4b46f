-- ===== src/Slb/Update/Count.antt =====
-- How many backends `Update` leaves.
use bfe.Common.{
  ℕ, suc, ◌+◌, ◌≡◌, refl, sym, ap, ◌∙◌, Option, some, List, [], ◌∷◌, ◌++◌, map, Bytes, bytes_eq,
  map_lookup, map_delete, length, length-append, arith, Bool-cases, Option-cases, inl, inr,
}
use bfe.Backend.{BackendConf}
use bfe.Slb.Backends.{BackendRr, match_addr_port, update_weight}
use bfe.Slb.Backends
use bfe.Slb.Balancer.{BalanceRr, BackendList, addr_info}
use bfe.Slb.Update.{
  ConfMap, conf_map_make, Sweep, drop_backend, sweep_one, sweep, restarted_of_conf, update,
}

length-map_delete :
    (k : Bytes) (m : ConfMap) (c : BackendConf)
    → map_lookup k m ≡ some c
    → length (map_delete k m) + 1 ≡ length m
unfolding map_lookup map_delete
length-map_delete k [] c h = cc
length-map_delete k ((j, v) ∷ m) c h = elim (Bool-cases (bytes_eq j k)) [
  | inl e ↦ rw e (omega arith)
  | inr e ↦ rw e (omega (arith, length-map_delete k m c (rw e at h)))
]

-- What is kept and what is left of the map, and what is kept and what is released.
abbrev places : Sweep → ℕ
places s = length s.kept + length s.left

abbrev seen : Sweep → ℕ
seen s = length s.kept + length s.released

some_injective : {s s' : Sweep} → some s ≡ some s' → s ≡ s'
some_injective h = cc

drop_backend-places :
    (b : BackendRr) (s s' : Sweep)
    → drop_backend b s ≡ some s'
    → (places s' ≡ places s) × (seen s' ≡ suc (seen s))
unfolding drop_backend
drop_backend-places b s s' h = elim (Option-cases (Backends.release b)) [
  | inl e ↦ let h' = rw (drop_backend, e) at h in cc
  | inr (b', e) ↦
      let h' = rw (drop_backend, e) at h in
      let same : record s { released = s.released ++ b' ∷ [] } ≡ s' = some_injective h' in
      (ap places (sym same), ap seen (sym same) ∙ omega (arith, length-append s.released (b' ∷ [])))
]

-- A kept backend takes its entry from the map.
keep_places :
    (x : BackendRr) (k : Bytes) (c : BackendConf) (s s' : Sweep)
    → map_lookup k s.left ≡ some c
    → some (record s { kept = s.kept ++ x ∷ []; left = map_delete k s.left }) ≡ some s'
    → (places s' ≡ places s) × (seen s' ≡ suc (seen s))
keep_places x k c s s' l h =
    let same : record s { kept = s.kept ++ x ∷ []; left = map_delete k s.left } ≡ s' =
      some_injective h in
    let more = length-append s.kept (x ∷ []) in
    let less = length-map_delete k s.left c l in
    (ap places (sym same) ∙ omega (arith, more, less), ap seen (sym same) ∙ omega (arith, more))

sweep_one-places :
    (b : BackendRr) (s s' : Sweep)
    → sweep_one b s ≡ some s'
    → (places s' ≡ places s) × (seen s' ≡ suc (seen s))
unfolding sweep_one
sweep_one-places b s s' h = elim (Option-cases (map_lookup (addr_info b) s.left)) [
  | inl e ↦ drop_backend-places b s s' (rw (sweep_one, e) at h)
  | inr (c, e) ↦ elim (Bool-cases (match_addr_port c.addr c.port b)) [
    | inl m ↦
        keep_places (update_weight c.weight b) (addr_info b) c s s' e (rw (sweep_one, e, m) at h)
    | inr m ↦ drop_backend-places b s s' (rw (sweep_one, e, m) at h)
  ]
]

sweep-places :
    (bs : BackendList) (s s' : Sweep)
    → sweep bs s ≡ some s'
    → (places s' ≡ places s) × (seen s' ≡ seen s + length bs)
unfolding sweep
sweep-places [] s s' h =
    let same : s ≡ s' = some_injective h in (ap places (sym same), ap seen (sym same) ∙ omega arith)
sweep-places (b ∷ bs) s s' h = elim (Option-cases (sweep_one b s)) [
  | inl e ↦ let h' = rw (sweep, e) at h in cc
  | inr (r, e) ↦
      let (p, q) = sweep_one-places b s r e in
      let (p', q') = sweep-places bs r s' (rw (sweep, e) at h) in (p' ∙ p, omega (arith, q, q'))
]

length-map : {A B : Type 0} (f : A → B) (xs : List A) → length (map f xs) ≡ length xs
length-map f [] = refl
length-map f (x ∷ xs) = ap suc (length-map f xs)

pub pair_injective :
    (x x' : BalanceRr) (y y' : BackendList)
    → ◌≡◌ {A = Option (BalanceRr × BackendList)} (some (x, y)) (some (x', y'))
    → (x ≡ x') × (y ≡ y')
pair_injective x x' y y' h = let p : x ≡ x' = cc in let q : y ≡ y' = cc in (p, q)

-- After an update the balancer has as many backends as the configuration has addresses: those it has
-- kept and new ones. Every old backend has been either kept or released. `order` is any order in
-- which Go ranges over the map.
pub length-update :
    (order : ConfMap → ConfMap) (conf : List BackendConf) (brr brr' : BalanceRr)
    (released : BackendList)
    → ((m : ConfMap) → length (order m) ≡ length m)
    → update order conf brr ≡ some (brr', released)
    → (length brr'.backends ≡ length (conf_map_make conf))
      × ((kept : ℕ) × (new : ℕ) × (length brr'.backends ≡ kept + new)
          × (kept + length released ≡ length brr.backends))
unfolding update
length-update order conf brr brr' released o h =
    let start : Sweep = record { kept = []; left = conf_map_make conf; released = [] } in
    elim (Option-cases (sweep brr.backends start)) [
      | inl e ↦ let h' = rw (update, e) at h in cc
      | inr (s, e) ↦
          let (b, r) = pair_injective _ _ _ _ (rw (update, e) at h) in
          let (p, q) = sweep-places brr.backends start s e in
          let new =
            map (λ (x : Bytes × BackendConf). restarted_of_conf brr.name x.1) (order s.left) in
          let all : length brr'.backends ≡ length s.kept + length s.left =
            ap (λ (x : BalanceRr). length x.backends) (sym b)
            ∙ length-append s.kept new
            ∙ ap (λ n. length s.kept + n) (length-map _ (order s.left) ∙ o s.left) in
          (
            all ∙ p ∙ omega arith,
            (
              length s.kept,
              length s.left,
              all,
              ap (λ l. length s.kept + length l) (sym r) ∙ q ∙ omega arith,
            ),
          )
    ]
