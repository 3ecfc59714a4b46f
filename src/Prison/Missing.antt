-- ===== src/Prison/Missing.antt =====
-- bfe_modules/mod_prison/access.go: the requests that prepareData gives no text for.
use bfe.Common.{
  ◌≡◌, ◌⊎◌, refl, ap, Bool, true, false, ◌&&◌, ◌||◌, not, Option, none, some, is_some, List, [],
  ◌∷◌, ◌++◌, if◌then◌else◌, Bytes, inl, inr,
}
use bfe.Prison.Sign.{
  AccessSignConf, SignRequest, SignError, no_client_ip, not_matched_url, no_header, no_cookie,
  no_query, Prepared, prepared, refused, and_then, is_empty, split_keys, query_loop,
  build_query_values, client_part, url_part, header_step, header_part, cookie_step, cookie_part,
  query_step, query_part, prepare_data,
}

unfoldable pub any : {A : Type 0} → (A → Bool) → List A → Bool
any p [] = false
any p (x ∷ xs) = p x || any p xs

-- Every one of the keys, which stand between bars, is without a value.
unfoldable pub lacks_values : SignRequest → Bytes → Bool
unfolding any split_keys
lacks_values req keys = not (any (λ key. not (is_empty (req.query_get key))) (split_keys keys))

-- The first of the parts asked for that the request does not have.
unfoldable pub missing : AccessSignConf → (Bytes → List Bytes) → SignRequest → Option SignError
unfolding any lacks_values
missing s url_reg req =
    if s.use_client_ip && not (is_some req.client_ip)
    then some no_client_ip
    else if not (is_empty s.url_regexp) && is_empty (url_reg req.request_uri)
    then some not_matched_url
    else if any (λ key. is_empty (req.header_get key)) s.header
    then some no_header
    else if any (λ key. not (is_some (req.cookie_get key))) s.cookie
    then some no_cookie
    else if any (lacks_values req) s.query
    then some no_query
    else none

abbrev pub error_of : Prepared → Option SignError
error_of (prepared buf) = none
error_of (refused e) = some e

-- It is refused with the error exactly if the test holds.
abbrev IsPart : Bool → SignError → Prepared → Type 0
IsPart b e o = ((b ≡ true) × (o ≡ refused e)) ⊎ ((b ≡ false) × (buf : Bytes) × (o ≡ prepared buf))

and_then-error :
    (b : Bool) (e : SignError) (o : Prepared) (next : Bytes → Prepared) (m : Option SignError)
    → IsPart b e o
    → ((buf : Bytes) → error_of (next buf) ≡ m)
    → error_of (and_then o next) ≡ (if b then some e else m)
and_then-error b e o next m (inl (t, f)) g = rw (t, f) refl
and_then-error b e o next m (inr (t, buf, f)) g = rw (t, f) (g buf)

and_then-IsPart :
    (b c : Bool) (e : SignError) (o : Prepared) (next : Bytes → Prepared)
    → IsPart b e o
    → ((buf : Bytes) → IsPart c e (next buf))
    → IsPart (b || c) e (and_then o next)
and_then-IsPart b c e o next (inl (t, f)) g = rw (t, f) (inl (refl, refl))
and_then-IsPart b c e o next (inr (t, buf, f)) g = rw (t, f) (g buf)

client_part-IsPart :
    (used : Bool) (client_ip : Option Bytes) (buf : Bytes)
    → IsPart (used && not (is_some client_ip)) no_client_ip (client_part used client_ip buf)
unfolding client_part
client_part-IsPart false client_ip buf = inr (refl, buf, refl)
client_part-IsPart true none buf = inl (refl, refl)
client_part-IsPart true (some ip) buf = inr (refl, _, refl)

url_part-IsPart :
    (url_regexp : Bytes) (found : List Bytes) (buf : Bytes)
    → IsPart
        (not (is_empty url_regexp) && is_empty found)
        not_matched_url
        (url_part url_regexp found buf)
unfolding url_part
url_part-IsPart [] found buf = inr (refl, buf, refl)
url_part-IsPart (c ∷ cs) [] buf = inl (refl, refl)
url_part-IsPart (c ∷ cs) (whole ∷ sub_strs) buf = inr (refl, _, refl)

header_step-IsPart :
    (key val buf : Bytes) → IsPart (is_empty val) no_header (header_step key val buf)
header_step-IsPart key [] buf = inl (refl, refl)
header_step-IsPart key (c ∷ cs) buf = inr (refl, _, refl)

header_part-IsPart :
    (req : SignRequest) (keys : List Bytes) (buf : Bytes)
    → IsPart (any (λ key. is_empty (req.header_get key)) keys) no_header (header_part req keys buf)
unfolding any header_part
header_part-IsPart req [] buf = inr (refl, buf, refl)
header_part-IsPart req (key ∷ keys) buf =
    and_then-IsPart _ _ no_header (header_step key (req.header_get key) buf) (header_part req keys)
      (header_step-IsPart key (req.header_get key) buf) (header_part-IsPart req keys)

cookie_step-IsPart :
    (key : Bytes) (val : Option Bytes) (buf : Bytes)
    → IsPart (not (is_some val)) no_cookie (cookie_step key val buf)
cookie_step-IsPart key none buf = inl (refl, refl)
cookie_step-IsPart key (some v) buf = inr (refl, _, refl)

cookie_part-IsPart :
    (req : SignRequest) (keys : List Bytes) (buf : Bytes)
    → IsPart
        (any (λ key. not (is_some (req.cookie_get key))) keys)
        no_cookie
        (cookie_part req keys buf)
unfolding any cookie_part
cookie_part-IsPart req [] buf = inr (refl, buf, refl)
cookie_part-IsPart req (key ∷ keys) buf =
    and_then-IsPart _ _ no_cookie (cookie_step key (req.cookie_get key) buf) (cookie_part req keys)
      (cookie_step-IsPart key (req.cookie_get key) buf) (cookie_part-IsPart req keys)

query_loop-any :
    (req : SignRequest) (dst : Bytes) (e : Bool) (keys : List Bytes)
    → (query_loop req dst e keys).0 ≡ (e || any (λ key. not (is_empty (req.query_get key))) keys)
unfolding query_loop any
query_loop-any req dst true [] = refl
query_loop-any req dst false [] = refl
query_loop-any req dst true (key ∷ keys) = query_loop-any req (dst ++ req.query_get key) true keys
query_loop-any req dst false (key ∷ keys) = query_loop-any req (dst ++ req.query_get key) _ keys

query_step-IsPart : (o : Bool × Bytes) → IsPart (not o.0) no_query (query_step o)
query_step-IsPart (true, buf) = inr (refl, buf, refl)
query_step-IsPart (false, buf) = inl (refl, refl)

build_query_values-lacks_values :
    (req : SignRequest) (buf keys : Bytes)
    → not (build_query_values req buf keys).0 ≡ lacks_values req keys
unfolding build_query_values lacks_values
build_query_values-lacks_values req buf keys =
    ap not (query_loop-any req (buf ++ (b'&' ∷ (keys ++ (b'=' ∷ [])))) false (split_keys keys))

query_part-IsPart :
    (req : SignRequest) (query : List Bytes) (buf : Bytes)
    → IsPart (any (lacks_values req) query) no_query (query_part req query buf)
unfolding any query_part
query_part-IsPart req [] buf = inr (refl, buf, refl)
query_part-IsPart req (keys ∷ query) buf =
    and_then-IsPart _ _ no_query (query_step (build_query_values req buf keys))
      (query_part req query)
      (rw (← build_query_values-lacks_values req buf keys)
        (query_step-IsPart (build_query_values req buf keys)))
      (query_part-IsPart req query)

-- A request gets a text to sign exactly if it has every part that the configuration asks for: a client
-- address, a match of the expression, a value for every header and cookie, and for one key at least
-- of every query. Otherwise the error is that of the first kind of part, in this order, of which one
-- is wanting.
pub prepare_data-error :
    (s : AccessSignConf) (url_reg : Bytes → List Bytes) (label : Bytes) (req : SignRequest)
    → error_of (prepare_data s url_reg label req) ≡ missing s url_reg req
unfolding prepare_data missing
prepare_data-error s url_reg label req =
    and_then-error _ no_client_ip _ _ _ (client_part-IsPart s.use_client_ip req.client_ip _) (λ b1.
      and_then-error _ not_matched_url _ _ _
        (url_part-IsPart s.url_regexp (url_reg req.request_uri) _)
        (λ b2. and_then-error _ no_header _ _ _ (header_part-IsPart req s.header b2) (λ b3.
          and_then-error _ no_cookie _ _ _ (cookie_part-IsPart req s.cookie b3) (λ b4.
            and_then-error _ no_query _ _ _ (query_part-IsPart req s.query b4) (λ b5. refl)))))
