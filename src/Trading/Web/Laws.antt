-- ===== src/Trading/Web/Laws.antt =====
-- What a route of data_server/router does before its handler is called.
use microservices_trading_bo.Common.{
  ◌≡◌, refl, Text, codes, List, [], ◌∷◌, ◌++◌, map, some, if◌then◌else◌, lookup, lookup-insert,
  insert, text_eq,
}
use microservices_trading_bo.Trading.Web.{
  Route, Exchange, Registration, log_line, set_middleware_logger, set_middleware_json, registration,
  setup_routes_with_middlewares, load_routes,
}

-- A registration answers its route: the request is logged once, and the handler is called once, with the type of the
-- response set to JSON and every other header as it was.
abbrev pub Serves : Route → Registration → Type 0
Serves route r =
    (r.path ≡ route.uri)
    × (r.on_method ≡ route.method)
    × ((x : Exchange)
        → (headers : List (Text × Text)) × (r.serve x ≡ record x {
          headers = headers;
          logged = x.logged ++ log_line x ∷ [];
          called = x.called ++ (route.handler, headers) ∷ [];
        })
          × ((name : Text)
              → lookup name headers ≡ (
                  if text_eq (codes "Content-Type") name
                  then some (codes "application/json")
                  else lookup name x.headers)))

registration-Serves : (route : Route) → Serves route (registration route)
unfolding registration set_middleware_logger set_middleware_json
registration-Serves route = (
  refl,
  refl,
  λ x. (
    insert (codes "Content-Type") (codes "application/json") x.headers,
    refl,
    λ name. lookup-insert (codes "Content-Type") name (codes "application/json") x.headers,
  ),
)

abbrev pub Served : List Route → List Registration → Type 0
Served [] [] = Unit
Served (route ∷ routes) (r ∷ rs) = Serves route r × Served routes rs
Served _ _ = ⊥

map-registration-Served : (routes : List Route) → Served routes (map registration routes)
map-registration-Served [] = tt
map-registration-Served (route ∷ routes) =
    (registration-Serves route, map-registration-Served routes)

-- The router is given one registration for each route of the two tables, in their order, after those that it had. A
-- request to it is logged once, and the route's handler is called once, with the type of the response set
-- to JSON and every other header as it was, whether or not the route asks for authorization.
pub setup_routes_with_middlewares_lem :
    (router : List Registration)
    → (added : List Registration) × (setup_routes_with_middlewares router ≡ router ++ added)
      × Served load_routes added
unfolding setup_routes_with_middlewares
setup_routes_with_middlewares_lem router =
    (map registration load_routes, refl, map-registration-Served load_routes)
