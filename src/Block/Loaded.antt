-- ===== src/Block/Loaded.antt =====
-- bfe_modules/mod_block/product_rule_load.go: what the check of a configuration ensures of the rules
-- that are made from it.
use bfe.Common.{
  ◌≡◌, refl, Bool, false, Option, none, some, List, [], ◌∷◌, Bytes, bytes_eq, bytes_eq→eq,
  Bool-cases, Option-cases, inl, inr, is_some, ◌+◌, ◌++◌, ◌⊎◌,
}
use mathlib.Core.Path.{subst}
use bfe.IpDict.Count.{All}
use bfe.Block.{
  ModuleBlockState, Request, search_rules, global_product, product_block_handler, BlockRule,
  ProductRules, cmd_allow, cmd_close,
}
use bfe.Block.Rules.{IsKnown, AllKnown, first_match, settle, found, product_block_handler-first}
use bfe.Block.Conf.{
  ActionFile, BlockRuleFile, ProductRulesFile, ProductRuleConfFile, ProductRuleConf, ConfError,
  bad_cond, before, action_file_check, block_rule_check, contains, name_check, add_name,
  rule_list_loop, block_rule_list_check, rules_check, product_rules_check, product_rule_conf_check,
  Outcome, value, failed, panics, then_do, action_convert, built, rule_convert, rule_list_convert,
  product_rules_convert, product_rule_conf_load,
}

-- No nil pointer is read, the only error is that of a condition, and a value that is returned has
-- the property.
unfoldable pub Meets : {A : Type 0} → (A → Type 0) → Outcome A → Type 0
Meets P (value a) = P a
Meets P (failed e) = e ≡ bad_cond
Meets P panics = ⊥

then_do-Meets :
    {A B : Type 0} (P : A → Type 0) (Q : B → Type 0) (o : Outcome A) (f : A → Outcome B)
    → Meets P o
    → ((a : A) → P a → Meets Q (f a))
    → Meets Q (then_do o f)
unfolding Meets
then_do-Meets P Q (value a) f m g = g a m
then_do-Meets P Q (failed e) f m g = m
then_do-Meets P Q panics f m g = absurd m

before-none : (a b : Option ConfError) → before a b ≡ none → (a ≡ none) × (b ≡ none)
before-none none b h = (refl, h)
before-none (some e) b h = cc

action_file-known :
    (cmd : Option Bytes) (params : Option (List Bytes))
    → action_file_check (record { cmd = cmd; params = params }) ≡ none
    → Meets
        (λ action. (action.cmd ≡ cmd_allow) ⊎ (action.cmd ≡ cmd_close))
        (action_convert (record { cmd = cmd; params = params }))
unfolding action_file_check action_convert Meets
action_file-known none params h = cc
action_file-known (some cmd) params h = elim (Bool-cases (bytes_eq cmd cmd_close)) [
  | inl e ↦ inr (bytes_eq→eq cmd cmd_close e)
  | inr e ↦ elim (Bool-cases (bytes_eq cmd cmd_allow)) [
    | inl f ↦ inl (bytes_eq→eq cmd cmd_allow f)
    | inr f ↦ let k = rw (e, f) at h in cc
  ]
]

module _ {Rest : Type 0} where
  -- No name stands twice, or among those that have been seen.
  unfoldable pub Distinct : List Bytes → List (BlockRule Rest) → Type 0
  Distinct seen [] = Unit
  Distinct seen (rule ∷ rules) =
      (contains rule.name seen ≡ false) × Distinct (rule.name ∷ seen) rules

  abbrev pub IsRuleList : List Bytes → List (BlockRule Rest) → Type 0
  IsRuleList seen rules = All IsKnown rules × Distinct seen rules

  -- Of every product, the commands are known and the names are distinct.
  unfoldable pub AllGood : ProductRules Rest → Type 0
  AllGood [] = Unit
  AllGood ((product, rules) ∷ table) = IsRuleList [] rules × AllGood table

  AllGood→AllKnown : (table : ProductRules Rest) → AllGood table → AllKnown table
  unfolding AllGood AllKnown
  AllGood→AllKnown [] a = tt
  AllGood→AllKnown ((product, rules) ∷ table) a = (a.0.0, AllGood→AllKnown table a.1)

module _ {Rest : Type 0} (build : Bytes → Option (Request Rest → Bool)) where
  abbrev IsFor : Option Bytes → BlockRule Rest → Type 0
  IsFor name rule = IsKnown rule × (name ≡ some rule.name)

  rule_convert-fields :
      (cond name : Option Bytes) (action : Option ActionFile)
      → block_rule_check (record { cond = cond; name = name; action = action }) ≡ none
      → Meets
          (IsFor name)
          (rule_convert build (record { cond = cond; name = name; action = action }))
  unfolding block_rule_check rule_convert Meets
  rule_convert-fields none name action h = cc
  rule_convert-fields (some text) none action h = cc
  rule_convert-fields (some text) (some name) none h = cc
  rule_convert-fields (some text) (some name) (some action) h =
      then_do-Meets (λ c. Unit) (IsFor (some name)) (built build (build text)) _
        (built-Meets (build text))
        (λ cond u.
          then_do-Meets (λ action. (action.cmd ≡ cmd_allow) ⊎ (action.cmd ≡ cmd_close))
            (IsFor (some name)) (action_convert action) _
            (action_file-known action.cmd action.params h) (λ action k. (k, refl)))
    where
      built-Meets : (o : Option (Request Rest → Bool)) → Meets (λ c. Unit) (built build o)
      built-Meets none = refl
      built-Meets (some cond) = tt

  name_check-fresh :
      (name : Option Bytes) (seen : List Bytes) (n : Bytes)
      → name_check name seen ≡ none
      → name ≡ some n
      → contains n seen ≡ false
  unfolding name_check
  name_check-fresh name seen n h e = elim (Bool-cases (contains n seen)) [
    | inr f ↦ f
    | inl f ↦ let k = rw (e, f) at h in cc
  ]

  rule_list_convert-IsRuleList :
      (seen : List Bytes) (conf : List BlockRuleFile)
      → rule_list_loop seen conf ≡ none
      → Meets (IsRuleList seen) (rule_list_convert build conf)
  unfolding rule_list_loop rule_list_convert Meets Distinct
  rule_list_convert-IsRuleList seen [] h = (tt, tt)
  rule_list_convert-IsRuleList seen (rule ∷ conf) h =
      let (checked, h') = before-none _ _ h in
      let (named, rest) = before-none _ _ h' in
      then_do-Meets (IsFor rule.name) (IsRuleList seen) (rule_convert build rule) _
        (rule_convert-fields rule.cond rule.name rule.action checked)
        (λ r (k, e).
          then_do-Meets (IsRuleList (add_name rule.name seen)) (IsRuleList seen)
            (rule_list_convert build conf) _
            (rule_list_convert-IsRuleList (add_name rule.name seen) conf rest)
            (λ rules (ks, d). (
              (k, ks),
              (
                name_check-fresh rule.name seen r.name named e,
                subst (λ n. Distinct (add_name n seen) rules) e d,
              ),
            )))

  product_rules-AllGood :
      (config : ProductRulesFile)
      → product_rules_check config ≡ none
      → Meets AllGood (product_rules_convert build config)
  unfolding product_rules_check product_rules_convert rules_check block_rule_list_check Meets
      AllGood
  product_rules-AllGood [] h = tt
  product_rules-AllGood ((product, none) ∷ config) h = cc
  product_rules-AllGood ((product, some conf) ∷ config) h =
      let (good, rest) = before-none _ _ h in
      then_do-Meets (IsRuleList []) AllGood (rule_list_convert build conf) _
        (rule_list_convert-IsRuleList [] conf good)
        (λ rules g.
          then_do-Meets AllGood AllGood (product_rules_convert build config) _
            (product_rules-AllGood config rest) (λ others a. (g, a)))

  conf-fields :
      (version : Option Bytes) (config : Option ProductRulesFile)
      → product_rule_conf_check (record { version = version; config = config }) ≡ none
      → Meets
          (λ conf. AllGood conf.config)
          (product_rule_conf_load build (record { version = version; config = config }))
  unfolding product_rule_conf_check product_rule_conf_load Meets
  conf-fields none config h = cc
  conf-fields (some version) none h = cc
  conf-fields (some version) (some config) h =
      rw (product_rule_conf_load, h)
        (then_do-Meets AllGood (λ conf. AllGood conf.config) (product_rules_convert build config) _
          (product_rules-AllGood config h) (λ rules a. a))

  -- From a configuration that passes its check, ProductRuleConfLoad reads no nil pointer, and fails
  -- only with the error of a condition that cannot be built. In what it returns, every rule of every
  -- product has the command ALLOW or CLOSE, and no two rules of a product have the same name.
  pub product_rule_conf_load-AllGood :
      (config : ProductRuleConfFile)
      → product_rule_conf_check config ≡ none
      → Meets (λ conf. AllGood conf.config) (product_rule_conf_load build config)
  product_rule_conf_load-AllGood config h = conf-fields config.version config.config h

  load-checked :
      (config : ProductRuleConfFile) (conf : ProductRuleConf Rest)
      → product_rule_conf_load build config ≡ value conf
      → product_rule_conf_check config ≡ none
  unfolding product_rule_conf_load
  load-checked config conf h = elim (Option-cases (product_rule_conf_check config)) [
    | inl e ↦ e
    | inr (e, f) ↦
        let k : product_rule_conf_load build config ≡ failed e =
          rw (product_rule_conf_load, f) refl in
        cc
  ]

  -- With any configuration that has been loaded, the first rule that a request matches, those for all
  -- products before those of its own, decides what becomes of it: the rule's name is kept with the
  -- request, the request is closed or let pass and counted as such, and the rules behind it do
  -- nothing. Where none matches, the request passes as it is, and it is counted as let pass only if
  -- its product is listed.
  pub product_block_handler-loaded :
      (config : ProductRuleConfFile) (conf : ProductRuleConf Rest)
      → product_rule_conf_load build config ≡ value conf
      → (m : ModuleBlockState) (req : Request Rest)
      → product_block_handler conf.config m req
        ≡ settle
            (is_some (search_rules req.product conf.config))
            (record m { req_total = m.req_total + 1 })
            req
            (first_match
              (found (search_rules global_product conf.config)
                ++ found (search_rules req.product conf.config))
              req)
  unfolding Meets
  product_block_handler-loaded config conf h m req =
      let g = product_rule_conf_load-AllGood config (load-checked config conf h) in
      product_block_handler-first (conf.config) m req (AllGood→AllKnown (conf.config) (rw h at g))
