-- ===== src/Bitso/Client.antt =====
-- data_server/bitso/client.go: the API client, its settings and the requests that it makes. The
-- libraries that it calls (net/url, net/http, crypto/hmac, encoding/json) are the record `Libraries`.
pub mod Signing
pub mod Api
pub mod Endpoints
pub mod Limiter
pub mod Spacing
pub mod Results
mod Tests
use microservices_trading_bo.Common.{
  ℕ, ◌+◌, Text, codes, Bool, true, false, ◌&&◌, List, [], ◌∷◌, ◌++◌, Option, none, some, ◌==◌,
  if◌then◌else◌, text_eq, show_nat, insert, Outcome, ok, err, panics, ◌>>=◌,
}
use microservices_trading_bo.Ws.Channel.{Channel, make, put}
use microservices_trading_bo.Bitso.Atoi.{ℤ, pos, negsuc}

-- envelope.go: an error of a library, or one that the exchange reports, or the one of LookupOrder.
pub data Failure : Type 0 where
  library : Text → Failure
  api_error : ℤ → Text → Failure
  no_such_order : Failure

-- `code` is `fmt.Sprintf("%v", env.Error.Code)`.
pub record Envelope : Type 0 where
  pub success : Bool
  pub code : Text
  pub message : Text

-- A `*http.Request`: what the package sets of it.
pub record Request : Type 0 where
  pub method : Text
  pub uri : Text
  pub headers : List (Text × Text)
  pub body : Text

-- `parse` is url.Parse, `encode` is url.Values.Encode, `with_query` sets RawQuery, `url_string` and `request_uri` are the methods
-- of a URL; `admits` tells which methods and URLs http.NewRequest takes; `mac` gives the digits of
-- the HMAC-SHA256 of a message under a secret; `serve` is client.Do with the reading of the body;
-- `decode` is json.Unmarshal into an Envelope.
pub record Libraries : Type 1 where
  pub Url : Type 0
  pub parse : Text → Outcome Failure Url
  pub encode : List (Text × Text) → Text
  pub with_query : Url → Text → Url
  pub url_string : Url → Text
  pub request_uri : Url → Text
  pub admits : Text → Text → Bool
  pub mac : Text → Text → Text
  pub serve : Request → Outcome Failure Text
  pub decode : Text → Outcome Failure Envelope

-- A Duration is signed; so is the burst rate.
pub record Client : Type 0 where
  pub api_prefix : Text
  pub key : Text
  pub secret : Text
  pub version : Text
  pub tickets : Channel {0} Unit
  pub burst_rate : ℤ

abbrev pub default_api_prefix : Text
default_api_prefix = codes "https://api.bitso.com/"

abbrev pub api_version : Text
api_version = codes "v3"

abbrev pub default_tickets : ℕ
default_tickets = 1

unfoldable pub new_client : Client
new_client = record {
  api_prefix = [];
  key = [];
  secret = [];
  version = api_version;
  tickets = put (make default_tickets) tt;
  burst_rate = pos 0;
}

unfoldable pub set_api_key : Client → Text → Client
set_api_key c key = record c { key = key }

unfoldable pub set_api_secret : Client → Text → Client
set_api_secret c secret = record c { secret = secret }

-- `strings.TrimRight(s, "/")`
unfoldable pub trim_slashes : Text → Text
trim_slashes [] = []
trim_slashes (c ∷ s) =
    let rest = trim_slashes s in if text_eq rest [] && (c == b'/') then [] else c ∷ rest

unfoldable pub set_api_prefix : Client → Text → Client
unfolding trim_slashes
set_api_prefix c prefix = record c {
  api_prefix = if text_eq prefix [] then [] else trim_slashes prefix ++ b'/' ∷ [];
}

unfoldable pub get_api_prefix : Client → Text
get_api_prefix c = if text_eq c.api_prefix [] then default_api_prefix else c.api_prefix

unfoldable pub burst_rate : Client → ℤ
burst_rate c = c.burst_rate

unfoldable pub set_burst_rate : Client → ℤ → Client
set_burst_rate c rate = record c { burst_rate = rate }

abbrev pub authorization : Text
authorization = codes "Authorization"

-- `fmt.Sprintf("%d%s%s%s", nonce, method, u.RequestURI(), string(buf))`
abbrev pub signed_message : ℕ → Text → Text → Text → Text
signed_message nonce method uri buf = show_nat nonce ++ method ++ uri ++ buf

-- `fmt.Sprintf("Bitso %s:%d:%s", c.key, nonce, signature)`
abbrev pub auth_header : Text → ℕ → Text → Text
auth_header key nonce signature =
    (codes "Bitso " ++ key) ++ b':' ∷ (show_nat nonce ++ b':' ∷ signature)

abbrev refused : Failure
refused = Failure.library (codes "net/http: invalid request")

-- `Header.Set` on the headers of a POST.
abbrev method_headers : Text → List (Text × Text)
method_headers method =
    if text_eq method (codes "POST")
    then (codes "Content-Type", codes "application/json")
      ∷ (codes "Accept", codes "application/json")
      ∷ []
    else []

abbrev pub read_body : Option Text → Text
read_body none = []
read_body (some b) = b

abbrev pub unsigned_request : Text → Text → Text → Request
unsigned_request method uri buf = record {
  method = method;
  uri = uri;
  headers = method_headers method;
  body = buf;
}

module _ (lib : Libraries) where
  open lib use {parse, request_uri, admits, mac}

  unfoldable pub endpoint_url : Client → Text → Outcome Failure lib.Url
  endpoint_url c endpoint = parse (get_api_prefix c ++ c.version ++ endpoint)

  -- `message`, `signature` and the header `Authorization`, for the URL that was parsed again.
  unfoldable pub sign : Client → ℕ → Request → lib.Url → Request
  unfolding insert
  sign c nonce req u =
      let signature = mac c.secret (signed_message nonce req.method (request_uri u) req.body) in
      record req { headers = insert authorization (auth_header c.key nonce signature) req.headers }

  -- The time is an argument. The body is absent, or a buffer: reading it does not fail.
  unfoldable pub new_request : Client → ℕ → Text → Text → Option Text → Outcome Failure Request
  unfolding sign
  new_request c nonce method uri body =
      let req = unsigned_request method uri (read_body body) in
      if admits method uri
      then (if text_eq c.key [] && text_eq c.secret []
          then ok req
          else (do u ← parse uri; ok (sign c nonce req u)))
      else err refused
