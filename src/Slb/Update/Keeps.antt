-- ===== src/Slb/Update/Keeps.antt =====
-- Which backends `Update` keeps, and which it releases.
use mathlib.Core.List.{append_assoc, append-nil}
use mathlib.Core.Path.{subst}
use bfe.Common.{
  ◌≡◌, refl, sym, ap, ◌∙◌, false, Option, none, some, List, [], ◌∷◌, ◌++◌, map, Bytes, bytes_eq,
  bytes_eq→eq, some_injective, map_lookup, map_delete, length, if◌then◌else◌, Bool-cases,
  Option-cases, inl, inr, ◌⊎◌,
}
use bfe.Common.Int.{ℤ, pos, leb_ℤ}
use bfe.Backend.{BackendConf}
use bfe.Slb.Backends.{BackendRr, match_addr_port, update_weight}
use bfe.Slb.Backends
use bfe.Slb.Balancer.{BalanceRr, BackendList, addr_info, release_all}
use bfe.Slb.Update.{
  ConfMap, conf_map_make, Sweep, drop_backend, sweep_one, sweep, restarted_of_conf, update,
}
use bfe.Slb.Update.Count.{length-update, pair_injective}

-- The entry of a configuration that has the address and the port of the backend.
unfoldable pub conf_of : ConfMap → BackendRr → Option BackendConf
conf_of m b = elim (map_lookup (addr_info b) m) [
  | none ↦ none
  | some conf ↦ if match_addr_port conf.addr conf.port b then some conf else none
]

-- The backends that the configuration has, with their new weights, in their old order.
unfoldable pub kept_by : ConfMap → BackendList → BackendList
kept_by m [] = []
kept_by m (b ∷ bs) =
    let rest = kept_by m bs in
    elim (conf_of m b) [ none ↦ rest | some conf ↦ update_weight conf.weight b ∷ rest ]

-- The others.
unfoldable pub dropped_by : ConfMap → BackendList → BackendList
dropped_by m [] = []
dropped_by m (b ∷ bs) =
    let rest = dropped_by m bs in elim (conf_of m b) [ none ↦ b ∷ rest | some conf ↦ rest ]

-- A configuration without the addresses of these backends.
unfoldable pub without : BackendList → ConfMap → ConfMap
unfolding map_delete
without [] m = m
without (b ∷ bs) m = without bs (map_delete (addr_info b) m)

-- No two backends have the same address.
abbrev pub IsApart : Bytes → BackendList → Type 0
IsApart k [] = Unit
IsApart k (b ∷ bs) = (bytes_eq k (addr_info b) ≡ false) × IsApart k bs

abbrev pub Distinct : BackendList → Type 0
Distinct [] = Unit
Distinct (b ∷ bs) = IsApart (addr_info b) bs × Distinct bs

lookup-delete_other :
    (j k : Bytes) (m : ConfMap)
    → bytes_eq j k ≡ false
    → map_lookup k (map_delete j m) ≡ map_lookup k m
unfolding map_lookup map_delete
lookup-delete_other j k [] e = refl
lookup-delete_other j k ((i, v) ∷ m) e = elim (Bool-cases (bytes_eq i j)) [
  | inl f ↦
      let other : bytes_eq i k ≡ false = ap (λ x. bytes_eq x k) (bytes_eq→eq i j f) ∙ e in
      rw (f, other) refl
  | inr f ↦ elim (Bool-cases (bytes_eq i k)) [
    | inl g ↦ rw (f, g) refl
    | inr g ↦ rw (f, g) (lookup-delete_other j k m e)
  ]
]

-- What is left of the configuration has the entries of the backends that are still to come.
abbrev Agrees : ConfMap → ConfMap → BackendList → Type 0
Agrees m left [] = Unit
Agrees m left (b ∷ bs) =
    (map_lookup (addr_info b) left ≡ map_lookup (addr_info b) m) × Agrees m left bs

Agrees-delete :
    (m left : ConfMap) (k : Bytes) (bs : BackendList)
    → IsApart k bs
    → Agrees m left bs
    → Agrees m (map_delete k left) bs
Agrees-delete m left k [] p a = tt
Agrees-delete m left k (b ∷ bs) p a =
    (lookup-delete_other k (addr_info b) left p.0 ∙ a.0, Agrees-delete m left k bs p.1 a.1)

Agrees-refl : (m : ConfMap) (bs : BackendList) → Agrees m m bs
Agrees-refl m [] = tt
Agrees-refl m (b ∷ bs) = (refl, Agrees-refl m bs)

-- What a sweep has added.
record Swept (m : ConfMap) (bs : BackendList) (s s' : Sweep) : Type 0 where
  pub kept : s'.kept ≡ s.kept ++ kept_by m bs
  pub left : s'.left ≡ without (kept_by m bs) s.left
  pub closed : BackendList
  pub drops : release_all (dropped_by m bs) ≡ some closed
  pub released : s'.released ≡ s.released ++ closed

kept_by-some :
    (m : ConfMap) (b : BackendRr) (bs : BackendList) (conf : BackendConf)
    → conf_of m b ≡ some conf
    → (kept_by m (b ∷ bs) ≡ update_weight conf.weight b ∷ kept_by m bs)
      × (dropped_by m (b ∷ bs) ≡ dropped_by m bs)
unfolding kept_by dropped_by
kept_by-some m b bs conf e = (rw (kept_by, e) refl, rw (dropped_by, e) refl)

kept_by-none :
    (m : ConfMap) (b : BackendRr) (bs : BackendList)
    → conf_of m b ≡ none
    → (kept_by m (b ∷ bs) ≡ kept_by m bs) × (dropped_by m (b ∷ bs) ≡ b ∷ dropped_by m bs)
unfolding kept_by dropped_by
kept_by-none m b bs e = (rw (kept_by, e) refl, rw (dropped_by, e) refl)

update_weight-addr_info : (w : ℤ) (b : BackendRr) → addr_info (update_weight w b) ≡ addr_info b
unfolding update_weight
update_weight-addr_info w b = elim (Bool-cases (leb_ℤ w (pos 0))) [
  | inl e ↦ rw e refl
  | inr e ↦ rw e refl
]

-- One backend that is kept, and then the others.
kept-Swept :
    (m : ConfMap) (b : BackendRr) (bs : BackendList) (conf : BackendConf) (s s' : Sweep)
    → conf_of m b ≡ some conf
    → Swept m bs
        (record s {
          kept = s.kept ++ update_weight conf.weight b ∷ [];
          left = map_delete (addr_info b) s.left;
        })
        s'
    → Swept m (b ∷ bs) s s'
unfolding without
kept-Swept m b bs conf s s' e w =
    let (k, d) = kept_by-some m b bs conf e in
    record {
      kept =
          w.kept
          ∙ append_assoc s.kept (update_weight conf.weight b ∷ []) (kept_by m bs)
          ∙ ap (λ l. s.kept ++ l) (sym k);
      left =
          w.left
          ∙ ap (λ a. without (kept_by m bs) (map_delete a s.left))
              (sym (update_weight-addr_info conf.weight b))
          ∙ ap (λ l. without l s.left) (sym k);
      closed = w.closed;
      drops = ap release_all d ∙ w.drops;
      released = w.released;
    }

release_all_cons :
    (b b' : BackendRr) (bs closed : BackendList)
    → Backends.release b ≡ some b'
    → release_all bs ≡ some closed
    → release_all (b ∷ bs) ≡ some (b' ∷ closed)
unfolding release_all
release_all_cons b b' bs closed e f = rw (release_all, e, f) refl

dropped-Swept :
    (m : ConfMap) (b b' : BackendRr) (bs : BackendList) (s s' : Sweep)
    → conf_of m b ≡ none
    → Backends.release b ≡ some b'
    → Swept m bs (record s { released = s.released ++ b' ∷ [] }) s'
    → Swept m (b ∷ bs) s s'
dropped-Swept m b b' bs s s' e f w =
    let (k, d) = kept_by-none m b bs e in
    record {
      kept = w.kept ∙ ap (λ l. s.kept ++ l) (sym k);
      left = w.left ∙ ap (λ l. without l s.left) (sym k);
      closed = b' ∷ w.closed;
      drops = ap release_all d ∙ release_all_cons b b' _ _ f w.drops;
      released = w.released ∙ append_assoc s.released (b' ∷ []) w.closed;
    }

-- What the sweep does with a backend whose entry is still there, if it has one.
sweep_one-conf_of :
    (m : ConfMap) (b : BackendRr) (s s' : Sweep)
    → map_lookup (addr_info b) s.left ≡ map_lookup (addr_info b) m
    → sweep_one b s ≡ some s'
    → ((conf : BackendConf) × (conf_of m b ≡ some conf)
        × (record s {
          kept = s.kept ++ update_weight conf.weight b ∷ [];
          left = map_delete (addr_info b) s.left;
        }
            ≡ s'))
      ⊎ ((b' : BackendRr) × (conf_of m b ≡ none)
          × (Backends.release b ≡ some b')
          × (record s { released = s.released ++ b' ∷ [] } ≡ s'))
unfolding sweep_one conf_of
sweep_one-conf_of m b s s' a h = elim (Option-cases (map_lookup (addr_info b) m)) [
  | inl e ↦
      let (b', r, k) = drops (rw (sweep_one, a, e) at h) in inr (b', rw (conf_of, e) refl, r, k)
  | inr (c, e) ↦ elim (Bool-cases (match_addr_port c.addr c.port b)) [
    | inl f ↦ inl (c, rw (conf_of, e, f) refl, some_injective _ s' (rw (sweep_one, a, e, f) at h))
    | inr f ↦
        let (b', r, k) = drops (rw (sweep_one, a, e, f) at h) in
        inr (b', rw (conf_of, e, f) refl, r, k)
  ]
]
  where
    drops :
        drop_backend b s ≡ some s'
        → (b' : BackendRr) × (Backends.release b ≡ some b')
          × (record s { released = s.released ++ b' ∷ [] } ≡ s')
    drops h = elim (Option-cases (Backends.release b)) [
      | inl e ↦ let k = rw (drop_backend, e) at h in cc
      | inr (b', e) ↦ (b', e, some_injective _ s' (rw (drop_backend, e) at h))
    ]

sweep-Swept :
    (m : ConfMap) (bs : BackendList) (s s' : Sweep)
    → Distinct bs
    → Agrees m s.left bs
    → sweep bs s ≡ some s'
    → Swept m bs s s'
unfolding sweep kept_by dropped_by without release_all
sweep-Swept m [] s s' d a h =
    let same : s ≡ s' = some_injective s s' h in
    subst (Swept m [] s) same (record {
      kept = sym (append-nil s.kept);
      left = refl;
      closed = [];
      drops = refl;
      released = sym (append-nil s.released);
    })
sweep-Swept m (b ∷ bs) s s' d a h = elim (Option-cases (sweep_one b s)) [
  | inl e ↦ let k = rw (sweep, e) at h in cc
  | inr (r, e) ↦
      let h' : sweep bs r ≡ some s' = rw (sweep, e) at h in
      elim (sweep_one-conf_of m b s r a.0 e) [
        | inl (conf, f, same) ↦ kept-Swept m b bs conf s s' f (
            sweep-Swept m bs _ s' d.1 (Agrees-delete m s.left (addr_info b) bs d.0 a.1)
              (ap (sweep bs) same ∙ h'))
        | inr (b', f, g, same) ↦
            dropped-Swept m b b' bs s s' f g
              (sweep-Swept m bs _ s' d.1 a.1 (ap (sweep bs) same ∙ h'))
      ]
]

-- An update of backends with distinct addresses keeps, in their order and with their new weights,
-- those of which the configuration has the address and the port, and releases all the others, and
-- only them. Behind the kept ones it puts a new backend for each entry of the configuration that no
-- kept one has, in the order in which Go ranges over the map; so that there are as many backends as
-- the configuration has addresses.
pub update-kept_by :
    (order : ConfMap → ConfMap) (conf : List BackendConf) (brr brr' : BalanceRr)
    (released : BackendList)
    → ((m : ConfMap) → length (order m) ≡ length m)
    → Distinct brr.backends
    → update order conf brr ≡ some (brr', released)
    → let m = conf_map_make conf in
      let kept = kept_by m brr.backends in
      (brr'.backends ≡ kept ++ map (λ e. restarted_of_conf brr.name e.1) (order (without kept m)))
      × (release_all (dropped_by m brr.backends) ≡ some released)
      × (length brr'.backends ≡ length m)
unfolding update
update-kept_by order conf brr brr' released o d h =
    let m = conf_map_make conf in
    let start : Sweep = record { kept = []; left = m; released = [] } in
    elim (Option-cases (sweep brr.backends start)) [
      | inl e ↦ let h' = rw (update, e) at h in cc
      | inr (s, e) ↦
          let (b, r) = pair_injective _ _ _ _ (rw (update, e) at h) in
          let w = sweep-Swept m brr.backends start s d (Agrees-refl m brr.backends) e in
          (
            ap (λ (x : BalanceRr). x.backends) (sym b)
                ∙ ap (λ l. l ++ map (λ e. restarted_of_conf brr.name e.1) (order s.left)) w.kept
                ∙ ap
                    (λ l.
                      kept_by m brr.backends ++ map (λ e. restarted_of_conf brr.name e.1) (order l))
                    w.left,
            w.drops ∙ ap some (sym w.released ∙ r),
            (length-update order conf brr brr' released o h).0,
          )
    ]
