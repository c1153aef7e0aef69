-- ===== src/Balancer/Fresh.antt =====
-- A reload of the configuration, and the requests that come before the first health checks.
use go_load_balancer.Prelude.{
  ◌≡◌, none, some, List, [], ◌∷◌, ℕ, arith, Bool-cases, Option-cases, inl, inr, All, All-get_elem?,
  All-append, get_elem?,
}
use go_load_balancer.Text.{Str}
use go_load_balancer.Config.{Config, ListenerConfig, RouteConfig}
use go_load_balancer.Extern.{Env, FloatOps}
use go_load_balancer.Backend.{BackendPool}
use go_load_balancer.Pool.Fresh.{IsDown, new_l7_backend_pool-IsDown}
use go_load_balancer.Strategy.{available, get_next_backend}
use go_load_balancer.Strategy.Choice.{get_next_backend-IsSound}
use go_load_balancer.Route.{Route}
use go_load_balancer.Route.Order.{IsSort, Reorders-sym, Reorders-get_elem?}
use go_load_balancer.Balancer.{
  LoadBalancer, Sort, less, listeners, is_l7, routes_of, unsorted_routes, build_l7_routes,
  reload_config,
}
use go_load_balancer.Balancer.Choice.{less-IsOrder}

module _ {Cb : Type 0} (env : Env Cb) (f : FloatOps) (ip : Str) where
  down-none : (p : BackendPool Cb) → All IsDown p.backends → (get_next_backend env f ip p).1 ≡ none
  unfolding available
  down-none p h = elim (Option-cases (get_next_backend env f ip p).1) [
    | inl none_found ↦ none_found
    | inr (i, found) ↦
        let (b, there, up) = (get_next_backend-IsSound env f ip p).0 i found in
        let down = (All-get_elem? IsDown p.backends i h there).down in
        absurd (ground (arith, up, down))
  ]

module _ {Cb : Type 0} (env : Env Cb) (sort : Sort Cb) (cfg : Config) where
  -- The backends of a route are all down.
  abbrev RouteIsDown : Route Cb → Type 0
  RouteIsDown c = All IsDown c.pool.backends

  routes_of-down : (rcs : List RouteConfig) → All RouteIsDown (routes_of env sort cfg rcs)
  unfolding routes_of
  routes_of-down [] = tt
  routes_of-down (rc ∷ rcs) =
      (new_l7_backend_pool-IsDown env cfg.circuit_breaker rc, routes_of-down rcs)

  unsorted_routes-down :
      (ls : List ListenerConfig) → All RouteIsDown (unsorted_routes env sort cfg ls)
  unfolding unsorted_routes
  unsorted_routes-down [] = tt
  unsorted_routes-down (l ∷ ls) = elim (Bool-cases (is_l7 l)) [
    | inl http ↦ rw http (
        All-append RouteIsDown (routes_of env sort cfg l.routes) _ (routes_of-down l.routes)
          (unsorted_routes-down ls))
    | inr other ↦ rw other (unsorted_routes-down ls)
  ]

  -- After a reload no route answers with a backend, under any strategy and for any client, until a
  -- health check has run, even if the backends were healthy before it.
  pub reload_serves_none :
      (s : IsSort sort) (lb : LoadBalancer Cb) (f : FloatOps) (ip : Str) (i : ℕ) (c : Route Cb)
      → get_elem? (reload_config env sort cfg lb).routes i ≡ some c
      → (get_next_backend env f ip c.pool).1 ≡ none
  unfolding reload_config build_l7_routes
  reload_serves_none s lb f ip i c there =
      let routes = unsorted_routes env sort cfg (listeners lb.heap cfg.listeners) in
      let (d, ordered) = s.sorts less less-IsOrder routes in
      let (j, at) = Reorders-get_elem? (Reorders-sym d) i c there in
      down-none env f ip c.pool (
        All-get_elem? RouteIsDown routes j (unsorted_routes-down (listeners lb.heap cfg.listeners))
          at)
