-- ===== src/Block/Examples.antt =====
-- A configuration of two products, and the blocklist of a small file.
use bfe.Common.{
  ◌≡◌, refl, Bool, true, false, Option, none, some, [], ◌∷◌, Bytes, codes, bytes_eq, arith,
  map_lookup,
}
use bfe.Module.{go_on, handler_close}
use bfe.IpDict.{Ip, IpItems, to16}
use bfe.IpDict.Load.{}
use bfe.IpDict.Entries.{any_entry}
use bfe.IpDict.Answers.{file_entries}
use bfe.IpDict.HashedSet.{Set16, hashed_set}
use bfe.IpDict.InsertionSort.{insertion_sort, insertion_sort-IsSort}
use bfe.IpDict.LoadExamples.{parse_digit, parse_none, hash_set, file, info, plain}
use bfe.BytePool.{new_fixed_byte_pool}
use bfe.Block.{
  ModuleBlockState, Session, Request, BlockRule, product_block_handler, global_block_handler,
}
use bfe.Block.Conf.{
  BlockRuleFile, ProductRuleConfFile, ProductRuleConf, product_rule_conf_check, value,
  product_rule_conf_load,
}
use bfe.Block.Rules.{first_match}
use bfe.Block.Loaded.{Meets, AllGood, product_rule_conf_load-AllGood, product_block_handler-loaded}
use bfe.Block.Global.{load_global_ip_table, screened, global_block_handler-file}

-- A condition holds for every request, or for none.
unfoldable build : Bytes → Option (Request Unit → Bool)
build [] = none
build (c ∷ cs) = some (λ req. bytes_eq (c ∷ cs) (codes "default_t"))

abbrev rule_file : Bytes → Bytes → Bytes → BlockRuleFile
rule_file cond name cmd = record {
  cond = some cond;
  name = some name;
  action = some (record { cmd = some cmd; params = some [] });
}

abbrev config : ProductRuleConfFile
config = record {
  version = some (codes "1");
  config = some (
      (codes "global", some (rule_file (codes "never") (codes "g") (codes "CLOSE") ∷ []))
      ∷ (
        codes "p",
        some (
            rule_file (codes "default_t") (codes "a") (codes "CLOSE")
            ∷ rule_file (codes "default_t") (codes "b") (codes "ALLOW")
            ∷ []),
      )
      ∷ []);
}

config-checked : product_rule_conf_check config ≡ none
unfolding product_rule_conf_check
config-checked = refl

product_rule_conf_load-AllGood_example :
    Meets (λ conf. AllGood conf.config) (product_rule_conf_load build config)
product_rule_conf_load-AllGood_example = product_rule_conf_load-AllGood build config config-checked

abbrev rule : Bytes → Bytes → Bytes → BlockRule Unit
rule cond name cmd = record {
  cond = λ req. bytes_eq cond (codes "default_t");
  name = name;
  action = record { cmd = cmd; params = some [] };
}

abbrev conf : ProductRuleConf Unit
conf = record {
  version = codes "1";
  config =
      (codes "global", rule (codes "never") (codes "g") (codes "CLOSE") ∷ [])
      ∷ (
        codes "p",
        rule (codes "default_t") (codes "a") (codes "CLOSE")
            ∷ rule (codes "default_t") (codes "b") (codes "ALLOW")
            ∷ [],
      )
      ∷ [];
}

config-loaded : product_rule_conf_load build config ≡ value conf
unfolding product_rule_conf_load build
config-loaded = refl

abbrev counters : ModuleBlockState
counters = record {
  conn_total = 0;
  conn_accept = 0;
  conn_refuse = 0;
  req_total = 0;
  req_accept = 0;
  req_refuse = 0;
  wrong_command = 0;
}

abbrev request : Bytes → Request Unit
request product = record { product = product; block_info = none; is_blocked = false; rest = tt }

product_block_handler-loaded_example :
    product_block_handler conf.config counters (request (codes "p")) ≡ (
      record counters { req_total = 1; req_refuse = 1 },
      record (request (codes "p")) { block_info = some (codes "a"); is_blocked = true },
      handler_close,
    )
unfolding first_match map_lookup bytes_eq
product_block_handler-loaded_example =
    product_block_handler-loaded build config conf config-loaded counters (request (codes "p"))

-- A request of a product without rules passes, but it is counted neither as let pass nor as refused.
unlisted :
    product_block_handler conf.config counters (request (codes "q"))
    ≡ (record counters { req_total = 1 }, request (codes "q"), go_on)
unfolding product_block_handler bytes_eq
unlisted = refl

abbrev session : Session
session = record { remote_ip = Ip.ip6 b'4'; is_refused = false }

file-loads :
    (load_global_ip_table parse_digit parse_none hash_set (insertion_sort []) info true file none).1
    ≡ true
unfolding load_global_ip_table parse_digit parse_none hashed_set insertion_sort bytes_eq
    new_fixed_byte_pool
file-loads = refl

abbrev blocklist : Option (IpItems (Set16 (λ _. 7)))
blocklist =
    (load_global_ip_table parse_digit parse_none hash_set (insertion_sort []) info true file none).0

global_block_handler-file_example :
    global_block_handler hash_set blocklist counters session
    ≡ screened (any_entry b'4' (file_entries parse_digit parse_none file)) counters session
unfolding to16
global_block_handler-file_example =
    global_block_handler-file parse_digit parse_none hash_set (insertion_sort [])
      insertion_sort-IsSort info true file none plain file-loads counters session b'4' refl
      (omega arith)
