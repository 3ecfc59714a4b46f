-- ===== src/Prison/SignExamples.antt =====
-- Requests with two headers, and the text that they are signed by.
use bfe.Common.{
  ◌≡◌, refl, true, false, none, some, List, [], ◌∷◌, if◌then◌else◌, Bytes, codes, bytes_eq,
}
use bfe.Prison.Sign.{AccessSignConf, SignRequest, no_header, prepare_data}
use bfe.Prison.Missing.{any, missing, error_of, prepare_data-error}

abbrev two_headers : AccessSignConf
two_headers = record {
  use_socket_ip = false;
  use_client_ip = false;
  use_connect_id = false;
  use_url = false;
  use_host = true;
  use_path = false;
  use_headers = false;
  url_regexp = [];
  query = [];
  header = codes "A" ∷ codes "B" ∷ [];
  cookie = [];
}

headers : Bytes → Bytes → Bytes → Bytes
headers a b key = if bytes_eq key (codes "A") then a else if bytes_eq key (codes "B") then b else []

abbrev request : Bytes → Bytes → SignRequest
request a b = record {
  client_ip = none;
  request_uri = codes "/";
  host = codes "h";
  path = codes "/";
  header_keys = [];
  header_get = headers a b;
  cookie_get = λ key. none;
  query_get = λ key. [];
}

abbrev no_match : Bytes → List Bytes
no_match url = []

prepare_data-error_example :
    error_of (prepare_data two_headers no_match (codes "c") (request (codes "1") []))
    ≡ some no_header
unfolding missing any headers bytes_eq
prepare_data-error_example =
    prepare_data-error two_headers no_match (codes "c") (request (codes "1") [])

-- Values are not quoted: two requests with different headers have the same text, and so the same
-- counter.
same_text :
    prepare_data two_headers no_match (codes "c") (request (codes "1&B=2") (codes "3"))
    ≡ prepare_data two_headers no_match (codes "c") (request (codes "1") (codes "2&B=3"))
unfolding prepare_data headers bytes_eq
same_text = refl
