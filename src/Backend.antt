-- ===== src/Backend.antt =====
-- bfe_balance/backend/bfe_backend.go: one backend server and its counters.
-- Each method takes the lock for its whole body, so it is one function on the record. `conn_num`
-- is an integer, since nothing in the type keeps it from going below zero; `fail_num` and
-- `succ_num` are only counted up and reset. `none` is a Go panic.
pub mod Checker
pub mod Recovery
pub mod Examples
use bfe.Common.{
  ℕ, ◌+◌, Bool, true, false, Option, none, some, Bytes, [], ◌++◌, ◌∷◌, leb, if◌then◌else◌, decimal,
}
use bfe.Common.Int.{ℤ, pos, ◌+ℤ◌, ◌-ℤ◌}

-- `closeChan`: nil for a backend made from an address alone.
pub data CloseChan : Type 0 where
  nil_chan open_chan closed_chan : CloseChan

pub record BfeBackend : Type 0 where
  pub name : Bytes
  pub addr : Bytes
  pub port : ℕ
  pub addr_info : Bytes
  pub sub_cluster : Bytes
  pub avail : Bool
  pub restarted : Bool
  pub conn_num : ℤ
  pub fail_num : ℕ
  pub succ_num : ℕ
  pub close_chan : CloseChan

-- cluster_table_conf.BackendConf, with its pointers followed.
pub record BackendConf : Type 0 where
  pub name : Bytes
  pub addr : Bytes
  pub port : ℕ
  pub weight : ℤ

unfoldable pub new_bfe_backend : BfeBackend
new_bfe_backend = record {
  name = [];
  addr = [];
  port = 0;
  addr_info = [];
  sub_cluster = [];
  avail = true;
  restarted = false;
  conn_num = pos 0;
  fail_num = 0;
  succ_num = 0;
  close_chan = open_chan;
}

-- fmt.Sprintf("%s:%d", addr, port)
unfoldable pub sprintf_addr : Bytes → ℕ → Bytes
sprintf_addr addr port = addr ++ b':' ∷ decimal port

unfoldable pub init : Bytes → BackendConf → BfeBackend → BfeBackend
unfolding sprintf_addr
init sub_cluster conf back = record back {
  name = conf.name;
  addr = conf.addr;
  port = conf.port;
  addr_info = sprintf_addr conf.addr conf.port;
  sub_cluster = sub_cluster;
}

unfoldable pub set_avail : Bool → BfeBackend → BfeBackend
set_avail avail back =
    if avail then record back { avail = true; fail_num = 0 } else record back { avail = false }

unfoldable pub set_restart : Bool → BfeBackend → BfeBackend
set_restart restart back = record back { restarted = restart }

unfoldable pub inc_conn_num : BfeBackend → BfeBackend
inc_conn_num back = record back { conn_num = back.conn_num +ℤ pos 1 }

unfoldable pub dec_conn_num : BfeBackend → BfeBackend
dec_conn_num back = record back { conn_num = back.conn_num -ℤ pos 1 }

pub add_fail_num : BfeBackend → BfeBackend
add_fail_num back = record back { fail_num = back.fail_num + 1 }

pub reset_fail_num : BfeBackend → BfeBackend
reset_fail_num back = record back { fail_num = 0 }

pub add_succ_num : BfeBackend → BfeBackend
add_succ_num back = record back { succ_num = back.succ_num + 1 }

pub reset_succ_num : BfeBackend → BfeBackend
reset_succ_num back = record back { succ_num = 0 }

-- The new state, and whether the backend has had enough successes.
pub check_avail : ℕ → BfeBackend → BfeBackend × Bool
check_avail succ_threshold back =
    if leb succ_threshold back.succ_num then (record back { succ_num = 0 }, true) else (back, false)

-- The new state, and whether the status has just flipped to false.
pub update_status : ℕ → BfeBackend → BfeBackend × Bool
unfolding set_avail
update_status fail_threshold back =
    if leb fail_threshold back.fail_num then (set_avail false back, back.avail) else (back, false)

-- `close` panics on a nil channel and on one that is closed already.
unfoldable pub release : BfeBackend → Option BfeBackend
release back = elim back.close_chan [
  | nil_chan ↦ none
  | open_chan ↦ some (record back { close_chan = closed_chan })
  | closed_chan ↦ none
]

pub on_success : BfeBackend → BfeBackend
unfolding reset_fail_num
on_success back = reset_fail_num back

-- health_check.go, UpdateStatus: `fail_num` of the cluster's check conf, or none if there is no
-- such conf. True starts a checker.
pub update_status_by_conf : Option ℕ → BfeBackend → BfeBackend × Bool
unfolding update_status
update_status_by_conf none back = (back, false)
update_status_by_conf (some fail_threshold) back = update_status fail_threshold back

pub on_fail : Option ℕ → BfeBackend → BfeBackend × Bool
unfolding add_fail_num update_status_by_conf
on_fail conf back = update_status_by_conf conf (add_fail_num back)
