-- ===== src/Block/Rules.antt =====
-- bfe_modules/mod_block/mod_block.go: productBlockHandler against the first rule that a request
-- matches.
use bfe.Common.{
  ◌+◌, ◌≡◌, refl, Bool, true, Option, none, some, List, [], ◌∷◌, ◌++◌, if◌then◌else◌, Bytes,
  bytes_eq, map_lookup, is_some, Bool-cases, inl, inr, ◌⊎◌, ◌∙◌, sym,
}
use mathlib.Core.Path.{subst, ap}
use bfe.Module.{Verdict, go_on, handler_close}
use bfe.IpDict.Count.{All}
use bfe.Block.{
  ModuleBlockState, Request, BlockRule, ProductRules, cmd_allow, cmd_close, global_product, decide,
  run_action, run_rule, product_rules_process, search_rules, global_rules_process,
  own_rules_process, product_block_handler,
}

module _ {Rest : Type 0} where
  -- A command that productRulesProcess knows.
  abbrev pub IsKnown : BlockRule Rest → Type 0
  IsKnown rule = (rule.action.cmd ≡ cmd_allow) ⊎ (rule.action.cmd ≡ cmd_close)

  unfoldable pub first_match : List (BlockRule Rest) → Request Rest → Option (BlockRule Rest)
  first_match [] req = none
  first_match (rule ∷ rules) req = if rule.cond req then some rule else first_match rules req

  -- A request that a rule closes, or lets pass.
  abbrev pub answer :
      ModuleBlockState → Request Rest → BlockRule Rest → ModuleBlockState × Request Rest × Verdict
  answer m req rule =
      if bytes_eq rule.action.cmd cmd_close
      then (
        record m { req_refuse = m.req_refuse + 1 },
        record req { block_info = some rule.name; is_blocked = true },
        handler_close,
      )
      else (
        record m { req_accept = m.req_accept + 1 },
        record req { block_info = some rule.name },
        go_on,
      )

  ended :
      ModuleBlockState × Request Rest × Verdict → ModuleBlockState × Request Rest × Option Verdict
  ended (m, req, v) = (m, req, some v)

  -- What productRulesProcess makes of the first rule that matches.
  abbrev follow :
      ModuleBlockState
      → Request Rest
      → Option (BlockRule Rest)
      → ModuleBlockState × Request Rest × Option Verdict
  follow m req none = (m, req, none)
  follow m req (some rule) = ended (answer m req rule)

  run_rule-known :
      (m : ModuleBlockState) (req : Request Rest) (rule : BlockRule Rest)
      → IsKnown rule
      → rule.cond req ≡ true
      → run_rule m req rule ≡ ended (answer m req rule)
  unfolding run_rule run_action bytes_eq ended
  run_rule-known m req rule (inl e) h = rw (h, e) refl
  run_rule-known m req rule (inr e) h = rw (h, e) refl

  product_rules_process-ended :
      (m : ModuleBlockState) (req : Request Rest) (rule : BlockRule Rest)
      (rules : List (BlockRule Rest)) (o : ModuleBlockState × Request Rest × Verdict)
      → run_rule m req rule ≡ ended o
      → product_rules_process m req (rule ∷ rules) ≡ ended o
  unfolding product_rules_process ended
  product_rules_process-ended m req rule rules (m', req', v) e = rw e refl

  product_rules_process-known :
      (m : ModuleBlockState) (req : Request Rest) (rules : List (BlockRule Rest))
      → All IsKnown rules
      → product_rules_process m req rules ≡ follow m req (first_match rules req)
  unfolding product_rules_process run_rule first_match
  product_rules_process-known m req [] a = refl
  product_rules_process-known m req (rule ∷ rules) a = elim (Bool-cases (rule.cond req)) [
    | inl e ↦
        subst
          (λ b.
            product_rules_process m req (rule ∷ rules)
            ≡ follow m req (if b then some rule else first_match rules req))
          (sym e)
          (product_rules_process-ended m req rule rules (answer m req rule)
            (run_rule-known m req rule a.0 e))
    | inr e ↦ rw e (product_rules_process-known m req rules a.1)
  ]

  -- The rules that a search has found; none if it has failed.
  abbrev pub found : Option (List (BlockRule Rest)) → List (BlockRule Rest)
  found none = []
  found (some rules) = rules

  -- The outcome of a search for the first rule, for a request whose product is listed or not.
  abbrev pub settle :
      Bool
      → ModuleBlockState
      → Request Rest
      → Option (BlockRule Rest)
      → ModuleBlockState × Request Rest × Verdict
  settle listed m req none =
      (if listed then record m { req_accept = m.req_accept + 1 } else m, req, go_on)
  settle listed m req (some rule) = answer m req rule

  -- Every rule of every product has a command that is known.
  unfoldable pub AllKnown : ProductRules Rest → Type 0
  AllKnown [] = Unit
  AllKnown ((product, rules) ∷ table) = All IsKnown rules × AllKnown table

  found-IsKnown :
      (product : Bytes) (table : ProductRules Rest)
      → AllKnown table
      → All IsKnown (found (search_rules product table))
  unfolding AllKnown map_lookup
  found-IsKnown product [] a = tt
  found-IsKnown product ((p, rules) ∷ table) a = elim (Bool-cases (bytes_eq p product)) [
    | inl e ↦ rw e a.0
    | inr e ↦ rw e (found-IsKnown product table a.1)
  ]

  -- What follows a first match, or the want of one.
  abbrev first_or :
      ModuleBlockState
      → Request Rest
      → Option (BlockRule Rest)
      → ModuleBlockState × Request Rest × Verdict
      → ModuleBlockState × Request Rest × Verdict
  first_or m req none next = next
  first_or m req (some rule) next = answer m req rule

  decide-follow :
      (m : ModuleBlockState) (req : Request Rest) (o : Option (BlockRule Rest))
      (next : ModuleBlockState → Request Rest → ModuleBlockState × Request Rest × Verdict)
      → decide (follow m req o) next ≡ first_or m req o (next m req)
  unfolding ended
  decide-follow m req none next = refl
  decide-follow m req (some rule) next = refl

  own_rules_process-settle :
      (o : Option (List (BlockRule Rest))) (m : ModuleBlockState) (req : Request Rest)
      → All IsKnown (found o)
      → own_rules_process o m req ≡ settle (is_some o) m req (first_match (found o) req)
  unfolding own_rules_process first_match ended
  own_rules_process-settle none m req a = refl
  own_rules_process-settle (some rules) m req a =
      rw (product_rules_process-known m req rules a) (settled (first_match rules req))
    where
      settled :
          (o : Option (BlockRule Rest))
          → decide
              (follow m req o)
              (λ m' req'. (record m' { req_accept = m'.req_accept + 1 }, req', go_on))
            ≡ settle true m req o
      settled none = refl
      settled (some rule) = refl

  global_rules_process-follow :
      (o : Option (List (BlockRule Rest))) (m : ModuleBlockState) (req : Request Rest)
      → All IsKnown (found o)
      → global_rules_process o m req ≡ follow m req (first_match (found o) req)
  unfolding global_rules_process first_match
  global_rules_process-follow none m req a = refl
  global_rules_process-follow (some rules) m req a = product_rules_process-known m req rules a

  first_or-settle :
      (listed : Bool) (m : ModuleBlockState) (req : Request Rest)
      (rules others : List (BlockRule Rest))
      → first_or m req (first_match rules req) (settle listed m req (first_match others req))
        ≡ settle listed m req (first_match (rules ++ others) req)
  unfolding first_match
  first_or-settle listed m req [] others = refl
  first_or-settle listed m req (rule ∷ rules) others = elim (Bool-cases (rule.cond req)) [
    | inl e ↦ rw e refl
    | inr e ↦ rw e (first_or-settle listed m req rules others)
  ]

  pub product_block_handler-first :
      (table : ProductRules Rest) (m : ModuleBlockState) (req : Request Rest)
      → AllKnown table
      → product_block_handler table m req
        ≡ settle
            (is_some (search_rules req.product table))
            (record m { req_total = m.req_total + 1 })
            req
            (first_match
              (found (search_rules global_product table) ++ found (search_rules req.product table))
              req)
  unfolding product_block_handler
  product_block_handler-first table m req a =
      let m1 = record m { req_total = m.req_total + 1 } in
      let g = search_rules global_product table in
      let o = search_rules req.product table in
      let next : ModuleBlockState → Request Rest → ModuleBlockState × Request Rest × Verdict =
        λ m' req'. own_rules_process (search_rules req'.product table) m' req' in
      ap (λ x. decide x next)
        (global_rules_process-follow g m1 req (found-IsKnown global_product table a))
      ∙ decide-follow m1 req (first_match (found g) req) next
      ∙ ap (first_or m1 req (first_match (found g) req))
          (own_rules_process-settle o m1 req (found-IsKnown req.product table a))
      ∙ first_or-settle (is_some o) m1 req (found g) (found o)
