-- ===== src/Route.antt =====
-- internal/lb/loadbalancer.go: a route, which requests it matches, and the order of the routes.
pub mod Order
use go_load_balancer.Prelude.{
  ℕ, suc, Bool, true, false, not, ◌&&◌, Option, none, some, List, [], ◌∷◌, ltb, if◌then◌else◌,
  length,
}
use go_load_balancer.Text.{Str, eqs, is_empty, has_prefix}
use go_load_balancer.Config.{RouteConfig}
use go_load_balancer.Backend.{BackendPool}

-- What the program reads of an *http.Request: `header` is what r.Header.Get answers, and `path` is
-- that of the URL, without its query.
pub record Request : Type 0 where
  pub method : Str
  pub host : Str
  pub path : Str
  pub query : Str
  pub remote_addr : Str
  pub header : Str → Str

-- A Route's handler is made from the other two fields, and is not kept.
pub record Route (Cb : Type 0) : Type 0 where
  pub config : RouteConfig
  pub pool : BackendPool Cb

-- The loop over the headers of Route.Matches.
unfoldable pub headers_match : (Str → Str) → List (Str × Str) → Bool
headers_match get [] = true
headers_match get ((key, value) ∷ headers) =
    let rest = headers_match get headers in if not (eqs (get key) value) then false else rest

-- Route.Matches reads the configuration only.
unfoldable pub matches : RouteConfig → Request → Bool
matches rc r =
    if not (is_empty rc.host) && not (eqs rc.host r.host)
    then false
    else if not (is_empty rc.path) && not (has_prefix r.path rc.path)
    then false
    else headers_match r.header rc.headers

-- The function that buildL7Routes hands to sort.Slice: whether the first route comes before.
unfoldable pub before : RouteConfig → RouteConfig → Bool
before r1 r2 =
    if not (is_empty r1.host) && is_empty r2.host
    then true
    else if is_empty r1.host && not (is_empty r2.host)
    then false
    else if ltb (length r2.path) (length r1.path)
    then true
    else if ltb (length r1.path) (length r2.path)
    then false
    else ltb (length r2.host) (length r1.host)

module _ {Cb : Type 0} where
  -- The loop of ServeHTTP: the position of the first route that matches, and the route.
  unfoldable pub first_match : Request → ℕ → List (Route Cb) → Option (ℕ × Route Cb)
  first_match r i [] = none
  first_match r i (route ∷ routes) =
      let rest = first_match r (suc i) routes in
      if matches route.config r then some (i, route) else rest
