-- ===== src/Block/Conf.antt =====
-- bfe_modules/mod_block/product_rule_load.go and action.go: the check and the conversion of the rules
-- of a file, once decoded. A pointer that is nil is none; the text around an error is left out. A Go
-- map is the list of its entries, in the order that the loop over it takes. `build` is
-- condition.Build.
use bfe.Common.{
  Bool, false, Option, none, some, List, [], ◌∷◌, if◌then◌else◌, ◌||◌, Bytes, bytes_eq, length,
  ◌==◌,
}
use bfe.Block.{Action, Request, BlockRule, ProductRules, cmd_allow, cmd_close}

pub record ActionFile : Type 0 where
  pub cmd : Option Bytes
  pub params : Option (List Bytes)

pub record BlockRuleFile : Type 0 where
  pub cond : Option Bytes
  pub name : Option Bytes
  pub action : Option ActionFile

abbrev pub ProductRulesFile : Type 0
ProductRulesFile = List (Bytes × Option (List BlockRuleFile))

pub record ProductRuleConfFile : Type 0 where
  pub version : Option Bytes
  pub config : Option ProductRulesFile

pub record ProductRuleConf (Rest : Type 0) : Type 0 where
  pub version : Bytes
  pub config : ProductRules Rest

pub data ConfError : Type 0 where
  no_cmd invalid_cmd no_params wrong_params no_cond no_name no_action same_name no_rule_list :
      ConfError
  no_version no_config bad_cond : ConfError

unfoldable pub action_file_check : ActionFile → Option ConfError
unfolding bytes_eq
action_file_check conf = elim (conf.cmd) [
  | none ↦ some no_cmd
  | some cmd ↦
      if bytes_eq cmd cmd_close || bytes_eq cmd cmd_allow
      then (elim (conf.params) [
        | none ↦ some no_params
        | some params ↦ if length params == 0 then none else some wrong_params
      ])
      else some invalid_cmd
]

unfoldable pub block_rule_check : BlockRuleFile → Option ConfError
unfolding action_file_check
block_rule_check conf = elim (conf.cond) [
  | none ↦ some no_cond
  | some cond ↦ elim (conf.name) [
    | none ↦ some no_name
    | some name ↦ elim (conf.action) [
      | none ↦ some no_action
      | some action ↦ action_file_check action
    ]
  ]
]

abbrev pub contains : Bytes → List Bytes → Bool
contains name [] = false
contains name (n ∷ names) = bytes_eq n name || contains name names

-- The first of two errors.
abbrev pub before : Option ConfError → Option ConfError → Option ConfError
before none next = next
before (some e) next = some e

-- A name that has been seen, or the check of the rules behind it. There is a name where the check of
-- the rule has passed.
unfoldable pub name_check : Option Bytes → List Bytes → Option ConfError
unfolding bytes_eq
name_check none seen = none
name_check (some name) seen = if contains name seen then some same_name else none

abbrev pub add_name : Option Bytes → List Bytes → List Bytes
add_name none seen = seen
add_name (some name) seen = name ∷ seen

-- `seen` are the keys of ruleNameMap.
unfoldable pub rule_list_loop : List Bytes → List BlockRuleFile → Option ConfError
unfolding block_rule_check name_check
rule_list_loop seen [] = none
rule_list_loop seen (rule ∷ conf) =
    before (block_rule_check rule)
      (before (name_check rule.name seen) (rule_list_loop (add_name rule.name seen) conf))

unfoldable pub block_rule_list_check : List BlockRuleFile → Option ConfError
unfolding rule_list_loop
block_rule_list_check conf = rule_list_loop [] conf

unfoldable pub rules_check : Option (List BlockRuleFile) → Option ConfError
unfolding block_rule_list_check
rules_check none = some no_rule_list
rules_check (some rule_list) = block_rule_list_check rule_list

unfoldable pub product_rules_check : ProductRulesFile → Option ConfError
unfolding rules_check
product_rules_check [] = none
product_rules_check ((product, rule_list) ∷ conf) =
    before (rules_check rule_list) (product_rules_check conf)

unfoldable pub product_rule_conf_check : ProductRuleConfFile → Option ConfError
unfolding product_rules_check
product_rule_conf_check conf = elim (conf.version) [
  | none ↦ some no_version
  | some version ↦ elim (conf.config) [
    | none ↦ some no_config
    | some config ↦ product_rules_check config
  ]
]

-- A value, an error, or a nil pointer that is read.
pub data Outcome (A : Type 0) : Type 0 where
  value : A → Outcome A
  failed : ConfError → Outcome A
  panics : Outcome A

abbrev pub then_do : {A B : Type 0} → Outcome A → (A → Outcome B) → Outcome B
then_do (value a) f = f a
then_do (failed e) f = failed e
then_do panics f = panics

-- *p
abbrev pub deref : {A : Type 0} → Option A → Outcome A
deref none = panics
deref (some a) = value a

unfoldable pub action_convert : ActionFile → Outcome Action
action_convert action_file =
    then_do (deref (action_file.cmd))
      (λ cmd. value (record { cmd = cmd; params = action_file.params }))

module _ {Rest : Type 0} (build : Bytes → Option (Request Rest → Bool)) where
  abbrev pub built : Option (Request Rest → Bool) → Outcome (Request Rest → Bool)
  built none = failed bad_cond
  built (some cond) = value cond

  unfoldable pub rule_convert : BlockRuleFile → Outcome (BlockRule Rest)
  unfolding action_convert
  rule_convert rule_file = then_do (deref (rule_file.cond)) (λ text.
      then_do (built (build text)) (λ cond. then_do (deref (rule_file.name)) (λ name.
        then_do (deref (rule_file.action)) (λ action_file.
          then_do (action_convert action_file)
            (λ action. value (record { cond = cond; name = name; action = action }))))))

  unfoldable pub rule_list_convert : List BlockRuleFile → Outcome (List (BlockRule Rest))
  unfolding rule_convert
  rule_list_convert [] = value []
  rule_list_convert (rule_file ∷ rule_file_list) =
      then_do (rule_convert rule_file)
        (λ rule. then_do (rule_list_convert rule_file_list) (λ rules. value (rule ∷ rules)))

  -- The loop of ProductRuleConfLoad.
  unfoldable pub product_rules_convert : ProductRulesFile → Outcome (ProductRules Rest)
  unfolding rule_list_convert
  product_rules_convert [] = value []
  product_rules_convert ((product, rule_file_list) ∷ config) =
      then_do (deref rule_file_list) (λ list. then_do (rule_list_convert list) (λ rules.
        then_do (product_rules_convert config) (λ others. value ((product, rules) ∷ others))))

  -- What follows the decoding.
  unfoldable pub product_rule_conf_load : ProductRuleConfFile → Outcome (ProductRuleConf Rest)
  unfolding product_rule_conf_check product_rules_convert
  product_rule_conf_load config = elim (product_rule_conf_check config) [
    | some e ↦ failed e
    | none ↦ then_do (deref (config.version)) (λ version.
        then_do (deref (config.config)) (λ rules_file.
          then_do (product_rules_convert rules_file)
            (λ rules. value (record { version = version; config = rules }))))
  ]
