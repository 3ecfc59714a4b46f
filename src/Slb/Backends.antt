-- ===== src/Slb/Backends.antt =====
-- bfe_balance/bal_slb/backend_rr.go: a backend with its weight and its slow start.
-- Go's `int` and `time.Duration` are 64 bits wide; the two products of `updateSlowStart` that
-- can leave that range are written with their wrap-around. Times are nanoseconds of a clock that
-- does not run backwards, and `now` is its reading where the function reads it.
use bfe.Common.{
  ℕ, ◌+◌, ◌-◌, ◌/◌, ◌%◌, Bool, true, false, ◌&&◌, Option, none, some, Bytes, ltb, ◌==◌,
  if◌then◌else◌, bytes_eq,
}
use bfe.Common.Int.{ℤ, pos, negsuc, ◌*ℤ◌, leb_ℤ, eqb_ℤ}
use bfe.Backend.{BfeBackend, BackendConf, new_bfe_backend}
use bfe.Backend

pub record WeightSs : Type 0 where
  pub final : ℤ
  pub slow_start_time : ℤ
  pub start_time : ℕ

pub record BackendRr : Type 0 where
  pub weight : ℤ
  pub current : ℤ
  pub backend : BfeBackend
  pub in_slow_start : Bool
  pub weight_ss : WeightSs

abbrev pub second : ℕ
second = 1000000000

abbrev pub int64_mod : ℕ
int64_mod = 18446744073709551616

abbrev pub int64_max : ℕ
int64_max = 9223372036854775807

-- The int64 that a bit pattern stands for.
unfoldable pub of_bits : ℕ → ℤ
of_bits r = if ltb int64_max r then negsuc (int64_mod - r - 1) else pos r

-- An integer, cut to 64 bits.
unfoldable pub wrap64 : ℤ → ℤ
unfolding of_bits
wrap64 (pos n) = of_bits (n % int64_mod)
wrap64 (negsuc n) = of_bits (int64_mod - 1 - n % int64_mod)

-- -n
abbrev negated : ℕ → ℤ
negated n = if n == 0 then pos 0 else negsuc (n - 1)

-- a / b, rounded towards zero.
unfoldable pub quot : ℤ → ℤ → ℤ
quot (pos n) (pos b) = pos (n / b)
quot (pos n) (negsuc b) = negated (n / (b + 1))
quot (negsuc n) (pos b) = negated ((n + 1) / b)
quot (negsuc n) (negsuc b) = pos ((n + 1) / (b + 1))

unfoldable pub new_backend_rr : BackendRr
unfolding new_bfe_backend
new_backend_rr = record {
  weight = pos 0;
  current = pos 0;
  backend = new_bfe_backend;
  in_slow_start = false;
  weight_ss = record { final = pos 0; slow_start_time = pos 0; start_time = 0 };
}

unfoldable pub init : Bytes → BackendConf → BackendRr → BackendRr
unfolding Backend.init
init sub_cluster_name conf b =
    let w = conf.weight *ℤ pos 100 in
    record b {
      weight = w;
      current = w;
      weight_ss = record (b.weight_ss) { final = w };
      backend = Backend.init sub_cluster_name conf b.backend;
    }

unfoldable pub update_weight : ℤ → BackendRr → BackendRr
update_weight weight b =
    if leb_ℤ weight (pos 0)
    then record b { weight = weight *ℤ pos 100; current = pos 0 }
    else record b { weight = weight *ℤ pos 100 }

-- `none` is the panic of a second `Close`.
unfoldable pub release : BackendRr → Option BackendRr
unfolding Backend.release
release b = elim (Backend.release b.backend) [
  | none ↦ none
  | some back ↦ some (record b { backend = back })
]

unfoldable pub match_addr_port : Bytes → ℕ → BackendRr → Bool
match_addr_port addr port b = bytes_eq b.backend.addr addr && b.backend.port == port

unfoldable pub init_slow_start : ℤ → ℕ → BackendRr → BackendRr
init_slow_start ss_time now b =
    if eqb_ℤ ss_time (pos 0)
    then record b {
      weight_ss = record (b.weight_ss) { slow_start_time = ss_time };
      in_slow_start = false;
    }
    else record b {
      weight_ss = record (b.weight_ss) { slow_start_time = ss_time; start_time = now };
      in_slow_start = true;
      weight = pos 1;
      current = pos 1;
    }

-- `time.Duration(slowStartTime) * time.Second`
abbrev pub slow_start_duration : ℤ → ℤ
slow_start_duration t = wrap64 (t *ℤ pos second)

-- The weight that `updateSlowStart` computes; `none` is the panic of a division by a duration that
-- wraps round to 0. A duration is a multiple of 512 and so never -1, the one divisor whose quotient
-- may not fit.
unfoldable pub slow_start_weight : WeightSs → ℕ → Option ℤ
unfolding wrap64 quot
slow_start_weight ss now =
    let duration = slow_start_duration ss.slow_start_time in
    if eqb_ℤ ss.slow_start_time (pos 0)
    then some ss.final
    else if eqb_ℤ duration (pos 0)
    then none
    else some (quot (wrap64 (ss.final *ℤ pos (now - ss.start_time))) duration)

abbrev pub with_weight : BackendRr → ℤ → BackendRr
with_weight b w =
    if leb_ℤ b.weight_ss.final w
    then record b { weight = b.weight_ss.final; in_slow_start = false }
    else record b { weight = w }

-- `none` is a panic, and `now` the reading of the clock in `time.Since`.
unfoldable pub update_slow_start : ℕ → BackendRr → Option BackendRr
unfolding slow_start_weight
update_slow_start now b =
    let w = slow_start_weight b.weight_ss now in
    if b.in_slow_start then elim w [ none ↦ none | some w' ↦ some (with_weight b w') ] else some b
