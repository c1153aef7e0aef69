-- ===== src/Balancer/Examples.antt =====
-- The theorems about the routes at a small configuration.
use go_load_balancer.Prelude.{get_elem?, ◌≡◌, refl, none, some, [], ◌∷◌, true}
use go_load_balancer.Prelude.Int.{pos}
use go_load_balancer.Text.{str, eqs, is_empty}
use go_load_balancer.Extern.{FloatOps, CbState}
use go_load_balancer.Pool.{new_l7_backend_pool}
use go_load_balancer.Strategy.{get_next_backend}
use go_load_balancer.Route.{Request, Route, first_match, before}
use go_load_balancer.Route.Order.{insertion_sort-IsSort}
use go_load_balancer.Balancer.{
  is_l7, listeners, routes_of, unsorted_routes, build_l7_routes, reload_config, new_load_balancer,
}
use go_load_balancer.Balancer.Choice.{IsChoice, first_match_most_specific}
use go_load_balancer.Balancer.Fresh.{reload_serves_none}
use go_load_balancer.Samples.{env, sort, server, route, heap, config, started}

abbrev request : Request
request = record {
  method = str "GET";
  host = str "example.org";
  path = str "/api/users";
  query = [];
  remote_addr = str "10.0.0.7:5123";
  header = λ key. [];
}

first_match_most_specific_example :
    IsChoice request
      (unsorted_routes env sort (config (0 ∷ [])) (listeners heap (0 ∷ [])))
      (first_match request 0 (build_l7_routes env sort heap (config (0 ∷ []))))
first_match_most_specific_example =
    first_match_most_specific env sort insertion_sort-IsSort heap (config (0 ∷ [])) request

abbrev zeros : FloatOps
zeros = record {
  inf = 0;
  of_uint = λ n. 0;
  of_int = λ n. 0;
  to_int = λ n. pos 0;
  is_zero = λ n. true;
  one = 0;
  div = λ a b. 0;
  lt = λ a b. true;
}

-- The route of the longest path is in front.
abbrev front : Route CbState
front = record {
  config = route [] (str "/api") (server (str "c:1") ∷ []);
  pool = new_l7_backend_pool env (route [] (str "/api") (server (str "c:1") ∷ [])) none;
}

front_there : get_elem? (reload_config env sort (config (0 ∷ [])) started).routes 0 ≡ some front
unfolding reload_config build_l7_routes unsorted_routes routes_of listeners is_l7 before
    new_load_balancer eqs is_empty
front_there = refl

reload_serves_none_example : (get_next_backend env zeros (str "10.0.0.7") front.pool).1 ≡ none
reload_serves_none_example =
    reload_serves_none env sort (config (0 ∷ [])) insertion_sort-IsSort started zeros
      (str "10.0.0.7") 0 front front_there
