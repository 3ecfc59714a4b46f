-- ===== src/Gslb/Select.antt =====
-- bal_gslb.go, `subClusterBalance`, `randomSelectExclude` and `LookupStickyBackend`.
pub mod Share
pub mod Cross
use bfe.Common.{
  ℕ, zero, suc, ◌+◌, ◌-◌, ◌%◌, Bool, true, false, not, ◌&&◌, Option, none, some, List, [], ◌∷◌,
  Bytes, if◌then◌else◌, ◌==◌, ltb, bytes_eq, get_elem?, length,
}
use bfe.Common.Int.{ℤ, pos, pos_part, ◌-ℤ◌, ltb_ℤ, leb_ℤ, eqb_ℤ}
use bfe.Backend.{sprintf_addr}
use bfe.Slb.Balancer.{Result, ok, err}
use bfe.Slb.Sticky.{get_hash, look_up_backend}
use bfe.Gslb.{SubCluster, BalanceGslb, gslb_normal, gslb_blackhole}
use bfe.Gslb.Weights.{has_weight}
use bfe.Gslb.HashKey.{Request, StickyContext, no_sticky, wrong_type, sticky_backend}

-- `missing` is a nil pointer or an index out of range, which the callers follow and panic.
pub data Selection : Type 0 where
  selected : ℕ → Selection
  no_sub_cluster missing : Selection

-- The loop of `subClusterBalance`: it ends with the sub-cluster that it has read last.
unfoldable pub sub_cluster_loop : ℤ → ℕ → Selection → List SubCluster → Selection
sub_cluster_loop w i last [] = last
sub_cluster_loop w i last (s ∷ ss) =
    let w' = if has_weight s then w -ℤ s.weight else w in
    let rest = sub_cluster_loop w' (suc i) (selected i) ss in
    if has_weight s && ltb_ℤ w' (pos 0) then selected i else rest

abbrev pub checked_at : List SubCluster → ℕ → Selection
checked_at subs i = if ltb i (length subs) then selected i else missing

unfoldable pub sub_cluster_balance : (Bytes → ℕ) → ℕ → Option Bytes → BalanceGslb → Selection
unfolding sub_cluster_loop get_hash
sub_cluster_balance sum64 r value bal =
    if eqb_ℤ bal.total_weight (pos 0)
    then no_sub_cluster
    else if bal.single
    then checked_at bal.sub_clusters bal.avail
    else elim (get_hash sum64 r value (pos_part bal.total_weight)) [
      | none ↦ missing
      | some w ↦ sub_cluster_loop (pos w) 0 missing bal.sub_clusters
    ]

abbrev pub is_blackhole : SubCluster → Bool
is_blackhole sub = elim sub.s_type [ gslb_blackhole ↦ true | gslb_normal ↦ false ]

-- Whether the sub-cluster at position i may take over from the one at `exclude`.
abbrev pub may_take_over : ℕ → ℕ → SubCluster → Bool
may_take_over exclude i sub =
    not (i == exclude) && leb_ℤ (pos 0) sub.weight && not (is_blackhole sub)

unfoldable pub count_available : ℕ → ℕ → List SubCluster → ℕ
count_available exclude i [] = 0
count_available exclude i (s ∷ ss) =
    let rest = count_available exclude (suc i) ss in
    if may_take_over exclude i s then suc rest else rest

-- The second loop: `missing` is its end, where "never reach here" stands.
unfoldable pub nth_available : ℕ → ℕ → ℕ → List SubCluster → Selection
nth_available exclude n i [] = missing
nth_available exclude n i (s ∷ ss) =
    let chosen = may_take_over exclude i s in
    let rest = nth_available exclude (if chosen then n - 1 else n) (suc i) ss in
    if chosen && n == 0 then selected i else rest

-- `r` is what rand.Int31 returns.
unfoldable pub random_select_exclude : ℕ → ℕ → List SubCluster → Selection
unfolding count_available nth_available
random_select_exclude r exclude subs =
    let available = count_available exclude 0 subs in
    if available == 0 then no_sub_cluster else nth_available exclude (r % available) 0 subs

unfoldable pub find_weighted : Bytes → ℕ → List SubCluster → Option (ℕ × SubCluster)
find_weighted name i [] = none
find_weighted name i (s ∷ ss) =
    let rest = find_weighted name (suc i) ss in
    if bytes_eq s.name name && has_weight s then some (i, s) else rest

-- The request after the call, and the positions of the sub-cluster and of the backend; none on error.
abbrev pub after_look_up : Request → ℕ → SubCluster → Result ℕ → Request × Option (ℕ × ℕ)
after_look_up req i sub (err e) = (req, none)
after_look_up req i sub (ok j) = (record req { sub_cluster_name = sub.name }, some (i, j))

abbrev pub look_up_in : Request → Bytes → Option (ℕ × SubCluster) → Request × Option (ℕ × ℕ)
look_up_in req addr none = (req, none)
look_up_in req addr (some (i, sub)) = after_look_up req i sub (look_up_backend addr sub.backends)

abbrev pub look_up_sticky : BalanceGslb → Request → StickyContext → Request × Option (ℕ × ℕ)
look_up_sticky bal req no_sticky = (req, none)
look_up_sticky bal req wrong_type = (req, none)
look_up_sticky bal req (sticky_backend sub_name addr port) =
    look_up_in req (sprintf_addr addr port) (find_weighted sub_name 0 bal.sub_clusters)

unfoldable pub look_up_sticky_backend : BalanceGslb → Request → Request × Option (ℕ × ℕ)
unfolding find_weighted look_up_backend sprintf_addr
look_up_sticky_backend bal req = look_up_sticky bal req req.sticky
