-- ===== src/Block.antt =====
-- bfe_modules/mod_block: the connections and the requests that mod_block refuses (mod_block.go,
-- product_rule_table.go), with the parts of bfe_util/ipdict that it calls. The counters are those of
-- ModuleBlockState. `Rest` is what else a request holds.
pub mod Conf
pub mod Examples
pub mod Global
pub mod Loaded
pub mod Rules
use bfe.Common.{
  ℕ, ◌+◌, ◌≡◌, Bool, true, false, Option, none, some, List, [], ◌∷◌, ◌++◌, if◌then◌else◌, Bytes,
  codes, bytes_eq, map_lookup,
}
use bfe.Module.{Verdict, go_on, handler_close}
use bfe.IpDict.{Ip, IpItems, IpSet, search}

pub record ModuleBlockState : Type 0 where
  pub conn_total : ℕ
  pub conn_accept : ℕ
  pub conn_refuse : ℕ
  pub req_total : ℕ
  pub req_accept : ℕ
  pub req_refuse : ℕ
  pub wrong_command : ℕ

pub record Action : Type 0 where
  pub cmd : Bytes
  -- nil is none
  pub params : Option (List Bytes)

pub record Session : Type 0 where
  pub remote_ip : Ip
  -- whether SetError has been called with ErrBlock
  pub is_refused : Bool

-- The product of the request's route, the name that CtxBlockInfo holds, and whether ErrCode is
-- ErrBlock.
pub record Request (Rest : Type 0) : Type 0 where
  pub product : Bytes
  pub block_info : Option Bytes
  pub is_blocked : Bool
  pub rest : Rest

pub record BlockRule (Rest : Type 0) : Type 0 where
  pub cond : Request Rest → Bool
  pub name : Bytes
  pub action : Action

abbrev pub ProductRules : Type 0 → Type 0
ProductRules Rest = List (Bytes × List (BlockRule Rest))

abbrev pub cmd_allow : Bytes
cmd_allow = codes "ALLOW"

abbrev pub cmd_close : Bytes
cmd_close = codes "CLOSE"

abbrev pub global_product : Bytes
global_product = codes "global"

-- The table of IPTable, and the session.
unfoldable pub global_block_handler :
    {S : Type 0}
    → IpSet S
    → Option (IpItems S)
    → ModuleBlockState
    → Session
    → ModuleBlockState × Session × Verdict
unfolding search
global_block_handler set ip_table m session =
    let m' = record m { conn_total = m.conn_total + 1 } in
    if search set ip_table session.remote_ip
    then (
      record m' { conn_refuse = m'.conn_refuse + 1 },
      record session { is_refused = true },
      handler_close,
    )
    else (record m' { conn_accept = m'.conn_accept + 1 }, session, go_on)

module _ {Rest : Type 0} where
  -- What a rule does to a request that it matches: the new request, and the verdict, if the loop ends
  -- there.
  unfoldable pub run_action :
      ModuleBlockState
      → Request Rest
      → BlockRule Rest
      → ModuleBlockState × Request Rest × Option Verdict
  unfolding bytes_eq
  run_action m req rule =
      let req' = record req { block_info = some rule.name } in
      if bytes_eq rule.action.cmd cmd_allow
      then (record m { req_accept = m.req_accept + 1 }, req', some go_on)
      else if bytes_eq rule.action.cmd cmd_close
      then (
        record m { req_refuse = m.req_refuse + 1 },
        record req' { is_blocked = true },
        some handler_close,
      )
      else (record m { wrong_command = m.wrong_command + 1 }, req', none)

  unfoldable pub run_rule :
      ModuleBlockState
      → Request Rest
      → BlockRule Rest
      → ModuleBlockState × Request Rest × Option Verdict
  unfolding run_action
  run_rule m req rule = if rule.cond req then run_action m req rule else (m, req, none)

  -- A verdict ends the loop; without one, the next rule is tried.
  abbrev pub proceed :
      ModuleBlockState × Request Rest × Option Verdict
      → (ModuleBlockState → Request Rest → ModuleBlockState × Request Rest × Option Verdict)
      → ModuleBlockState × Request Rest × Option Verdict
  proceed (m, req, none) next = next m req
  proceed (m, req, some v) next = (m, req, some v)

  -- The verdict is none where isMatch is false; the response is always nil.
  unfoldable pub product_rules_process :
      ModuleBlockState
      → Request Rest
      → List (BlockRule Rest)
      → ModuleBlockState × Request Rest × Option Verdict
  unfolding run_rule
  product_rules_process m req [] = (m, req, none)
  product_rules_process m req (rule ∷ rules) =
      proceed (run_rule m req rule) (λ m' req'. product_rules_process m' req' rules)

  -- A verdict, or else what comes next.
  abbrev pub decide :
      ModuleBlockState × Request Rest × Option Verdict
      → (ModuleBlockState → Request Rest → ModuleBlockState × Request Rest × Verdict)
      → ModuleBlockState × Request Rest × Verdict
  decide (m, req, none) next = next m req
  decide (m, req, some v) next = (m, req, v)

  -- ProductRuleTable.Search: the rules of a product, if there are any.
  abbrev pub search_rules : Bytes → ProductRules Rest → Option (List (BlockRule Rest))
  search_rules product table = map_lookup product table

  -- The rules of the request's product, where the global ones have not decided.
  unfoldable pub own_rules_process :
      Option (List (BlockRule Rest))
      → ModuleBlockState
      → Request Rest
      → ModuleBlockState × Request Rest × Verdict
  unfolding product_rules_process
  own_rules_process none m req = (m, req, go_on)
  own_rules_process (some rules) m req =
      decide (product_rules_process m req rules)
        (λ m' req'. (record m' { req_accept = m'.req_accept + 1 }, req', go_on))

  unfoldable pub global_rules_process :
      Option (List (BlockRule Rest))
      → ModuleBlockState
      → Request Rest
      → ModuleBlockState × Request Rest × Option Verdict
  unfolding product_rules_process
  global_rules_process none m req = (m, req, none)
  global_rules_process (some rules) m req = product_rules_process m req rules

  unfoldable pub product_block_handler :
      ProductRules Rest
      → ModuleBlockState
      → Request Rest
      → ModuleBlockState × Request Rest × Verdict
  unfolding own_rules_process global_rules_process map_lookup
  product_block_handler table m req =
      decide
        (global_rules_process (search_rules global_product table)
          (record m { req_total = m.req_total + 1 }) req)
        (λ m' req'. own_rules_process (search_rules req'.product table) m' req')
