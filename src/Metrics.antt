-- ===== src/Metrics.antt =====
-- internal/lb/metrics.go: what a scrape of /metrics reports of a load balancer while no counter moves.
-- A line is a value, with its label as it is printed; the numbers are not printed. The order in which
-- `range` visits the pools, and the number of cached items, are parameters.
pub mod Totals
mod Examples
use go_load_balancer.Prelude.{
  ℕ, ◌+◌, Bool, true, false, Option, none, some, List, [], ◌∷◌, ◌++◌, if◌then◌else◌,
}
use go_load_balancer.Text.{Str, str}
use go_load_balancer.Config.{RouteConfig}
use go_load_balancer.Extern.{Env, CbState, closed, half_open, open_state}
use go_load_balancer.Backend.{
  Backend, BackendPool, add_u64, is_healthy, get_connections, get_total_connections,
}
use go_load_balancer.Route.{Route}
use go_load_balancer.Balancer.{LoadBalancer}

-- The lines of the body.
pub data Line : Type 0 where
  backend_health_status backend_active_connections backend_circuit_state : Str → ℕ → Line
  blank : Line
  total_active_connections cache_item_count : ℕ → Line

unfoldable pub state_num : CbState → ℕ
state_num closed = 0
state_num half_open = 1
state_num open_state = 2

unfoldable pub route_label : RouteConfig → Str → Str
route_label rc addr =
    str "backend=\""
    ++ addr
    ++ str "\", route_path=\""
    ++ rc.path
    ++ str "\", route_host=\""
    ++ rc.host
    ++ str "\""

unfoldable pub listener_label : Str → Str → Str
listener_label name addr =
    str "backend=\"" ++ addr ++ str "\", listener_name=\"" ++ name ++ str "\""

module _ {Cb : Type 0} (env : Env Cb) where
  unfoldable pub circuit_lines : Str → Option Cb → List Line
  unfolding state_num
  circuit_lines label none = []
  circuit_lines label (some c) = backend_circuit_state label (state_num (env.state c)) ∷ []

  unfoldable pub backend_lines : Str → Backend Cb → List Line
  unfolding circuit_lines
  backend_lines label b =
      backend_health_status label (if is_healthy b then 1 else 0)
        ∷ backend_active_connections label (get_connections b)
        ∷ circuit_lines label b.cb
      ++ blank ∷ []

  unfoldable pub pool_lines : (Str → Str) → List (Backend Cb) → List Line
  unfolding backend_lines
  pool_lines label [] = []
  pool_lines label (b ∷ bs) = backend_lines (label b.addr) b ++ pool_lines label bs

  -- The loops over the routes and over the pools, from a total on: their lines, and the total.
  unfoldable pub l7_lines : ℕ → List (Route Cb) → List Line × ℕ
  l7_lines total [] = ([], total)
  l7_lines total (route ∷ routes) =
      let (lines, total') = l7_lines (add_u64 total (get_total_connections route.pool)) routes in
      (pool_lines (route_label route.config) route.pool.backends ++ lines, total')

  unfoldable pub l4_lines : ℕ → List (Str × BackendPool Cb) → List Line × ℕ
  l4_lines total [] = ([], total)
  l4_lines total ((name, pool) ∷ pools) =
      let (lines, total') = l4_lines (add_u64 total (get_total_connections pool)) pools in
      (pool_lines (listener_label name) pool.backends ++ lines, total')

  unfoldable pub cache_lines : Option ℕ → List Line
  cache_lines none = []
  cache_lines (some n) = cache_item_count n ∷ []

  -- The handler of /metrics.
  unfoldable pub metrics :
      (List (Str × BackendPool Cb) → List (Str × BackendPool Cb))
      → Option ℕ
      → LoadBalancer Cb
      → List Line
  unfolding cache_lines
  metrics order cached lb =
      let (l7, some_conns) = l7_lines 0 lb.routes in
      let (l4, total) = l4_lines some_conns (order lb.l4_pools) in
      l7 ++ l4 ++ blank ∷ total_active_connections total ∷ cache_lines cached
