-- ===== src/Prison/Sign.antt =====
-- bfe_modules/mod_prison/access.go: the text that a request is signed by (prepareData); its MD5 sum is
-- the sign. What a request says of itself is a record of functions; `url_reg` is FindStringSubmatch of
-- the compiled expression.
use bfe.Common.{
  Bool, true, false, ◌||◌, not, Option, none, some, List, [], ◌∷◌, ◌++◌, if◌then◌else◌, ◌==◌, Bytes,
  codes, bytes_eq,
}

pub record AccessSignConf : Type 0 where
  pub use_socket_ip : Bool
  pub use_client_ip : Bool
  pub use_connect_id : Bool
  pub use_url : Bool
  pub use_host : Bool
  pub use_path : Bool
  pub use_headers : Bool
  pub url_regexp : Bytes
  pub query : List Bytes
  pub header : List Bytes
  pub cookie : List Bytes

-- ClientAddr.IP.String(), RequestURI, Host, URL.Path, HeaderKeys, and the Get of the headers, the
-- cookies and the query.
pub record SignRequest : Type 0 where
  pub client_ip : Option Bytes
  pub request_uri : Bytes
  pub host : Bytes
  pub path : Bytes
  pub header_keys : List Bytes
  pub header_get : Bytes → Bytes
  pub cookie_get : Bytes → Option Bytes
  pub query_get : Bytes → Bytes

pub data SignError : Type 0 where
  no_client_ip not_matched_url no_header no_cookie no_query : SignError

pub data Prepared : Type 0 where
  prepared : Bytes → Prepared
  refused : SignError → Prepared

abbrev pub and_then : Prepared → (Bytes → Prepared) → Prepared
and_then (prepared buf) next = next buf
and_then (refused e) next = refused e

abbrev pub is_empty : {A : Type 0} → List A → Bool
is_empty [] = true
is_empty (x ∷ xs) = false

unfoldable pub build_key_value : Bytes → Bytes → Bytes → Bytes
build_key_value dst key val = dst ++ (b'&' ∷ (key ++ (b'=' ∷ val)))

-- strings.Split(s, "|"): the part before the first separator, and the others.
unfoldable pub split_keys : Bytes → List Bytes
split_keys [] = [] ∷ []
split_keys (c ∷ cs) =
    let rest = split_keys cs in
    if c == b'|' then [] ∷ rest else (elim rest [ [] ↦ (c ∷ []) ∷ [] | p ∷ ps ↦ (c ∷ p) ∷ ps ])

-- The values of the keys, and whether there is one.
unfoldable pub query_loop : SignRequest → Bytes → Bool → List Bytes → Bool × Bytes
query_loop req dst exist_query [] = (exist_query, dst)
query_loop req dst exist_query (key ∷ keys) =
    let val = req.query_get key in
    query_loop req (dst ++ val) (exist_query || not (is_empty val)) keys

unfoldable pub build_query_values : SignRequest → Bytes → Bytes → Bool × Bytes
unfolding query_loop split_keys
build_query_values req dst keys =
    query_loop req (dst ++ (b'&' ∷ (keys ++ (b'=' ∷ [])))) false (split_keys keys)

-- The part under a flag.
abbrev pub key_if : Bool → Bytes → Bytes → Bytes → Bytes
key_if used key val buf = if used then build_key_value buf key val else buf

unfoldable pub client_part : Bool → Option Bytes → Bytes → Prepared
unfolding build_key_value
client_part false client_ip buf = prepared buf
client_part true none buf = refused no_client_ip
client_part true (some ip) buf = prepared (build_key_value buf (codes "clientIP") ip)

-- strings.Join(parts, ",")
unfoldable pub join_parts : List Bytes → Bytes
join_parts [] = []
join_parts (p ∷ []) = p
join_parts (p ∷ q ∷ ps) = p ++ (b',' ∷ join_parts (q ∷ ps))

-- What the expression has found, if there is an expression.
unfoldable pub url_part : Bytes → List Bytes → Bytes → Prepared
unfolding build_key_value join_parts
url_part [] found buf = prepared buf
url_part (c ∷ cs) [] buf = refused not_matched_url
url_part (c ∷ cs) (whole ∷ sub_strs) buf =
    prepared (build_key_value buf (codes "urlpattern") (join_parts sub_strs))

-- A value, or the error of an empty one.
abbrev pub header_step : Bytes → Bytes → Bytes → Prepared
header_step key [] buf = refused no_header
header_step key (c ∷ cs) buf = prepared (build_key_value buf key (c ∷ cs))

unfoldable pub header_part : SignRequest → List Bytes → Bytes → Prepared
unfolding build_key_value
header_part req [] buf = prepared buf
header_part req (key ∷ keys) buf =
    and_then (header_step key (req.header_get key) buf) (header_part req keys)

abbrev pub cookie_step : Bytes → Option Bytes → Bytes → Prepared
cookie_step key none buf = refused no_cookie
cookie_step key (some v) buf = prepared (build_key_value buf key v)

unfoldable pub cookie_part : SignRequest → List Bytes → Bytes → Prepared
unfolding build_key_value
cookie_part req [] buf = prepared buf
cookie_part req (key ∷ keys) buf =
    and_then (cookie_step key (req.cookie_get key) buf) (cookie_part req keys)

abbrev pub query_step : Bool × Bytes → Prepared
query_step (true, buf) = prepared buf
query_step (false, buf) = refused no_query

unfoldable pub query_part : SignRequest → List Bytes → Bytes → Prepared
unfolding build_query_values
query_part req [] buf = prepared buf
query_part req (keys ∷ query) buf =
    and_then (query_step (build_query_values req buf keys)) (query_part req query)

unfoldable pub all_headers : SignRequest → List Bytes → Bytes → Bytes
unfolding build_key_value bytes_eq
all_headers req [] buf = buf
all_headers req (key ∷ keys) buf =
    all_headers req keys (
      build_key_value buf key
        (if bytes_eq key (codes "Host") then req.host else req.header_get key))

-- url, host and path.
unfoldable pub plain_parts : AccessSignConf → SignRequest → Bytes → Bytes
unfolding build_key_value
plain_parts s req buf =
    key_if s.use_path (codes "path") req.path (
      key_if s.use_host (codes "host") req.host
        (key_if s.use_url (codes "url") req.request_uri buf))

unfoldable pub prepare_data : AccessSignConf → (Bytes → List Bytes) → Bytes → SignRequest → Prepared
unfolding client_part plain_parts url_part header_part cookie_part query_part all_headers
prepare_data s url_reg label req =
    and_then (client_part s.use_client_ip req.client_ip (build_key_value [] (codes "label") label))
      (λ b1.
        and_then (url_part s.url_regexp (url_reg req.request_uri) (plain_parts s req b1)) (λ b2.
          and_then (header_part req s.header b2) (λ b3.
            and_then (cookie_part req s.cookie b3) (λ b4.
              and_then (query_part req s.query b4) (λ b5.
                prepared (if s.use_headers then all_headers req req.header_keys b5 else b5))))))
