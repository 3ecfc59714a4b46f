-- ===== src/Gslb/HashKey.antt =====
-- bal_gslb.go, `getHashKey`, and cluster_conf's `GetCookieKey`; the request as the balancer sees it.
use bfe.Common.{ℕ, Bool, ◌||◌, Option, none, some, [], ◌∷◌, Bytes, if◌then◌else◌, ◌==◌, leb, ◌&&◌}
use bfe.Common.Int.{ℤ}
use bfe.Slb.Balancer.{BalanceError}
use bfe.Gslb.{
  HashStrategy, client_id_only, client_ip_only, client_id_preferred, request_uri, HashConf,
}

-- The value of SessionStickyBackendKey in the request's context: absent, of another type, or a
-- backend by its sub-cluster, address and port.
pub data StickyContext : Type 0 where
  no_sticky wrong_type : StickyContext
  sticky_backend : Bytes → Bytes → ℕ → StickyContext

pub data ErrCode : Type 0 where
  bk_retry_too_many bk_no_sub_cluster gslb_blackhole_hit bk_no_backend : ErrCode
  bk_no_sub_cluster_cross bk_cross_retry_balance : ErrCode

-- `client_ip` is empty where the address is nil, `header_get` and `cookie` read the headers, and
-- `is_cross_cluster` is none where there is no Stat. `err_msg` has the names and the error.
pub record Request : Type 0 where
  pub client_ip : Bytes
  pub uri : Bytes
  pub header_get : Bytes → Bytes
  pub cookie : Bytes → Option Bytes
  pub sticky : StickyContext
  pub retry_time : ℤ
  pub sub_cluster_name : Bytes
  pub err_code : Option ErrCode
  pub err_msg : Option (Bytes × Bytes × BalanceError)
  pub is_cross_cluster : Option Bool

abbrev is_space : ℕ → Bool
is_space c = c == b' ' || (leb 9 c && leb c 13)

-- strings.TrimSpace on ASCII text: white space off the front, and off the back.
unfoldable pub trim_front : Bytes → Bytes
trim_front [] = []
trim_front (c ∷ cs) = if is_space c then trim_front cs else c ∷ cs

unfoldable pub trim_back : Bytes → Bytes
trim_back [] = []
trim_back (c ∷ cs) = elim (trim_back cs) [
  | [] ↦ if is_space c then [] else c ∷ []
  | d ∷ ds ↦ c ∷ d ∷ ds
]

unfoldable pub trim_space : Bytes → Bytes
unfolding trim_front trim_back
trim_space cs = trim_back (trim_front cs)

-- The text after the first colon.
unfoldable pub after_colon : Bytes → Option Bytes
after_colon [] = none
after_colon (c ∷ cs) = if c == b':' then some cs else after_colon cs

unfoldable pub get_cookie_key : Bytes → Option Bytes
unfolding after_colon trim_space
get_cookie_key header = elim (after_colon header) [
  | none ↦ none
  | some rest ↦ some (trim_space rest)
]

-- `none` is nil; the value of a cookie may be empty.
unfoldable pub get_hash_key_by_header : Request → Bytes → Option Bytes
unfolding get_cookie_key
get_hash_key_by_header req header = elim (req.header_get header) [
  | c ∷ cs ↦ some (c ∷ cs)
  | [] ↦ elim (get_cookie_key header) [ none ↦ none | some key ↦ req.cookie key ]
]

-- The key by the strategy, before an empty one is replaced.
unfoldable pub strategy_key : HashStrategy → Bytes → Request → Option Bytes
unfolding get_hash_key_by_header
strategy_key client_id_only header req = get_hash_key_by_header req header
strategy_key client_ip_only header req = some req.client_ip
strategy_key client_id_preferred header req = elim (get_hash_key_by_header req header) [
  | none ↦ some req.client_ip
  | some key ↦ some key
]
strategy_key request_uri header req = some req.uri

-- `rand_key` is the eight bytes of rand.Uint64.
unfoldable pub get_hash_key : Bytes → HashConf → Request → Bytes
unfolding strategy_key
get_hash_key rand_key conf req = elim (strategy_key conf.hash_strategy conf.hash_header req) [
  | none ↦ rand_key
  | some [] ↦ rand_key
  | some (c ∷ cs) ↦ c ∷ cs
]
