-- ===== src/Trading/Web.antt =====
-- data_server/router, middlewares, config, api and utils/console: the program's settings, the table of its
-- routes and what stands before each handler.
pub mod Laws
use microservices_trading_bo.Common.{
  ℕ, Text, codes, Bool, true, false, List, [], ◌∷◌, ◌++◌, map, Option, none, some, if◌then◌else◌,
  text_eq, insert, Outcome, ok, err, panics, ◌⊎◌, inl, inr,
}
use microservices_trading_bo.Bitso.Atoi.{ℤ, pos}
use microservices_trading_bo.Trading.Fate.{Fate, returns, ◌>>=◌}
use microservices_trading_bo.Trading.Store.{Cassandra, ClusterConfig, cassandra_init_connection}

-- The handlers of package controllers that a route names.
pub data Endpoint : Type 0 where
  sign_up token_validation code_validation socket_handler : Endpoint

pub record Route : Type 0 where
  pub uri : Text
  pub method : Text
  pub handler : Endpoint
  pub auth_required : Bool

abbrev pub register_routes : List Route
register_routes =
    record {
      uri = codes "/api/signup";
      method = codes "POST";
      handler = sign_up;
      auth_required = false;
    }
    ∷ record {
      uri = codes "/api/validate/token/{token}";
      method = codes "GET";
      handler = token_validation;
      auth_required = false;
    }
    ∷ record {
      uri = codes "/api/validate/code/{code}";
      method = codes "GET";
      handler = code_validation;
      auth_required = false;
    }
    ∷ []

abbrev pub socket_routes : List Route
socket_routes =
    record {
      uri = codes "/socket";
      method = codes "GET";
      handler = socket_handler;
      auth_required = false;
    }
    ∷ []

abbrev pub load_routes : List Route
load_routes = register_routes ++ socket_routes

-- A request and its response: what was logged, and the calls of handlers with the headers of the response then.
pub record Exchange : Type 0 where
  pub method : Text
  pub host : Text
  pub request_uri : Text
  pub proto : Text
  pub headers : List (Text × Text)
  pub logged : List Text
  pub called : List (Endpoint × List (Text × Text))

abbrev pub HandlerFunc : Type 0
HandlerFunc = Exchange → Exchange

abbrev pub calls : Endpoint → HandlerFunc
calls endpoint x = record x { called = x.called ++ (endpoint, x.headers) ∷ [] }

-- `fmt.Sprintf("%s %s%s %s", r.Method, r.Host, r.RequestURI, r.Proto)`
abbrev pub log_line : Exchange → Text
log_line x = x.method ++ b' ' ∷ (x.host ++ x.request_uri ++ b' ' ∷ x.proto)

unfoldable pub set_middleware_logger : HandlerFunc → HandlerFunc
set_middleware_logger next x = next (record x { logged = x.logged ++ log_line x ∷ [] })

unfoldable pub set_middleware_json : HandlerFunc → HandlerFunc
unfolding insert
set_middleware_json next x =
    next (record x { headers = insert (codes "Content-Type") (codes "application/json") x.headers })

-- What a router was given: a path, a method and a handler.
pub record Registration : Type 0 where
  pub path : Text
  pub on_method : Text
  pub serve : HandlerFunc

unfoldable pub registration : Route → Registration
unfolding set_middleware_logger set_middleware_json
registration route = record {
  path = route.uri;
  on_method = route.method;
  serve = set_middleware_logger (set_middleware_json (calls route.handler));
}

unfoldable pub setup_routes_with_middlewares : List Registration → List Registration
unfolding registration
setup_routes_with_middlewares router = router ++ map registration load_routes

-- `config.Load`: the error of reading the environment, and what strconv.Atoi makes of API_PORT.
unfoldable pub load_config : Option Text → Outcome Text ℤ → Fate ℤ
load_config (some _) port = Fate.dies
load_config none (ok port) = returns port
load_config none (err _) = returns (pos 9000)
load_config none panics = Fate.panics

-- `Run`: ListenAndServe returns with an error, which goes to `log.Fatal`; a panic ends the program too.
unfoldable pub run_api :
    (lib : Cassandra)
    → Option Text
    → Outcome Text ℤ
    → (ip username password : Text) → lib.Db
    → Fate {0} Unit
unfolding load_config cassandra_init_connection
run_api lib failed port ip username password db = do
  _ ← load_config failed port
  _ ← cassandra_init_connection lib ip username password db
  Fate.dies

-- The escape that colours a message; 27 is the octal 33.
unfoldable pub message_color : Text → Text
message_color action =
    if text_eq action (codes "red")
    then 27 ∷ codes "[31m"
    else if text_eq action (codes "green")
    then 27 ∷ codes "[32m"
    else if text_eq action (codes "yellow")
    then 27 ∷ codes "[33m"
    else if text_eq action (codes "blue")
    then 27 ∷ codes "[34m"
    else if text_eq action (codes "purple")
    then 27 ∷ codes "[35m"
    else if text_eq action (codes "cyan")
    then 27 ∷ codes "[36m"
    else if text_eq action (codes "white")
    then 27 ∷ codes "[37m"
    else 27 ∷ codes "[0m"

-- `FancyHandleError` prints, and tells whether there was an error.
unfoldable pub fancy_handle_error : Option Text → Bool
fancy_handle_error none = false
fancy_handle_error (some _) = true

-- `SetDefaultColor`: `Printf` shows the argument that its format has no place for.
abbrev pub set_default_color : Text
set_default_color = 27 ∷ codes "[0m%!(EXTRA string=)"

-- What `Pretty` prints and what it logs, where `json.MarshalIndent` gave an error or a text. After an
-- error the colour stays red.
unfoldable pub pretty : Text ⊎ Text → Text → Text × Text
unfolding message_color
pretty (inl fault) color = ([], message_color (codes "red") ++ b' ' ∷ fault ++ 10 ∷ [])
pretty (inr b) color = (message_color color ++ b' ' ∷ b ++ 10 ∷ set_default_color, [])

-- `PrettyController`; `marshal` is `json.MarshalIndent` of the map, whose third entry is the time.
unfoldable pub pretty_controller :
    (List (Text × Text) → Text ⊎ Text) → Text → Text → Text → Text → Text × Text
unfolding pretty
pretty_controller marshal controller request now color =
    pretty
      (marshal
        ((codes "Controller", controller) ∷ (codes "Request", request) ∷ (codes "Time", now) ∷ []))
      color
