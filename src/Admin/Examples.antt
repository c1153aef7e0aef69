-- ===== src/Admin/Examples.antt =====
-- The theorems about the admin API at a small configuration.
use go_load_balancer.Prelude.{
  ◌≡◌, true, none, some, map, get_elem?, modify, refl, [], ◌∷◌, arith, All,
}
use go_load_balancer.Prelude.Int.{pos}
use go_load_balancer.Text.{Str, str, eqs, is_empty}
use go_load_balancer.Balancer.{
  reload_config, allocate, new_load_balancer, build_l7_routes, unsorted_routes, routes_of,
  listeners, is_l7,
}
use go_load_balancer.Admin.{
  has_route, has_backend, get_route_by_index, add_route, delete_route, add_backend_to_route,
  delete_backend_from_route,
}
use go_load_balancer.Admin.Distinct.{IsUnique}
use go_load_balancer.Admin.Commands.{adds_route, updates_weight, perform, perform-IsUnique}
use go_load_balancer.Admin.Reach.{
  Reach, commanded, reloaded, served, connected, after, reached_routes_are_configured,
}
use go_load_balancer.Balancer.Configured.{Follows, with_pool}
use go_load_balancer.Config.{RouteConfig}
use go_load_balancer.Extern.{CbState}
use go_load_balancer.Backend.{BackendPool}
use go_load_balancer.Pool.{new_l7_backend_pool, health_check}
use go_load_balancer.Route.{Route, before}
use go_load_balancer.Admin.Reload.{SameService, stale_command_lost}
use go_load_balancer.Admin.Undo.{IsUndone, add_route-delete_route, add_backend-delete_backend}
use go_load_balancer.Route.Order.{insertion_sort-IsSort}
use go_load_balancer.Samples.{heap, env, whole, sort, server, route, web, postgres, config, started}

web-IsUnique : IsUnique web
unfolding has_route has_backend eqs
web-IsUnique = record {
  routes = (refl, (refl, tt));
  backends = ((refl, (refl, tt)), ((refl, tt), tt));
}

postgres-IsUnique : IsUnique postgres
postgres-IsUnique = record { routes = tt; backends = tt }

perform-IsUnique_example :
    All IsUnique
      (perform env sort
        (adds_route (route [] (str "/img") (server (str "f:1") ∷ [])))
        0
        started).0.heap
unfolding new_load_balancer has_backend
perform-IsUnique_example =
    perform-IsUnique env sort (adds_route (route [] (str "/img") (server (str "f:1") ∷ []))) 0
      started (refl, tt) (web-IsUnique, (postgres-IsUnique, tt))

-- The route for "/api" once a health check has found its backend up.
abbrev api_route : RouteConfig
api_route = route [] (str "/api") (server (str "c:1") ∷ [])

abbrev built : Route CbState
built = record { config = api_route; pool = new_l7_backend_pool env api_route none }

abbrev checked : BackendPool CbState
checked = record built.pool { backends = map (health_check env true) built.pool.backends }

first_route : get_elem? started.routes 0 ≡ some built
unfolding new_load_balancer build_l7_routes unsorted_routes routes_of listeners is_l7 before eqs
    is_empty
first_route = refl

-- A health check, a command, connections that have left no TCP or UDP pool, and a reload.
reached_routes_are_configured_example :
    let lb = record started { routes = modify started.routes 0 (with_pool checked) } in
    let lb' = (perform env sort (updates_weight (pos 0) (str "b:1") (pos 3)) 0 lb).0 in
    Follows (
      reload_config env sort (config (2 ∷ [])) (allocate (web ∷ []) (record lb' { l4_pools = [] })))
unfolding new_l7_backend_pool
reached_routes_are_configured_example =
    reached_routes_are_configured env sort insertion_sort-IsSort (
      after
        (after
          (after
            (after (Reach.started heap (config (0 ∷ 1 ∷ [])))
              (served 0 built checked first_route refl))
            (commanded (updates_weight (pos 0) (str "b:1") (pos 3)) 0))
          (connected []))
        (reloaded (web ∷ []) (config (2 ∷ []))))

stale_command_lost_example :
    let lb = reload_config env sort (config (2 ∷ [])) (allocate (web ∷ []) started) in
    SameService env sort lb (perform env sort (updates_weight (pos 0) (str "b:1") (pos 5)) 0 lb).0
unfolding new_load_balancer
stale_command_lost_example =
    stale_command_lost env sort (updates_weight (pos 0) (str "b:1") (pos 5)) 0 (web ∷ [])
      (config (2 ∷ [])) started (omega arith) (omega arith, tt)

-- A client's address, for the pools' choice.
abbrev client : Str
client = str "10.0.0.7"

add_route-delete_route_example :
    IsUndone env sort whole client started
      (delete_route env sort 0 (pos 2) (add_route env sort 0 (route [] (str "/img") []) started).0)
unfolding new_load_balancer has_route eqs
add_route-delete_route_example =
    add_route-delete_route env sort whole client insertion_sort-IsSort 0 (route [] (str "/img") [])
      started web refl refl

add_backend-delete_backend_example : IsUndone env sort whole client started (
    delete_backend_from_route env sort 0
      (pos 1)
      (str "f:1")
      (add_backend_to_route env sort 0 (pos 1) (server (str "f:1")) started).0)
unfolding new_load_balancer get_route_by_index has_backend eqs
add_backend-delete_backend_example =
    add_backend-delete_backend env sort whole client insertion_sort-IsSort 0 (pos 1)
      (server (str "f:1")) started web (route [] (str "/api") (server (str "c:1") ∷ [])) refl refl
      refl
