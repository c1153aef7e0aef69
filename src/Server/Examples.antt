-- ===== src/Server/Examples.antt =====
-- The theorems about ServeHTTP at a load balancer with two routes and a limit of two requests.
use go_load_balancer.Prelude.{ℕ, ◌≡◌, ◌≢◌, refl, ap, none, some, [], ◌∷◌, arith}
use go_load_balancer.Prelude.Int.{pos}
use go_load_balancer.Text.{str, eqs, is_empty, has_prefix}
use go_load_balancer.Extern.{CbState}
use go_load_balancer.Route.{Request, Route, first_match, matches, headers_match}
use go_load_balancer.RateLimit.{RateLimiter}
use go_load_balancer.Http.{Writer, http_error, CacheItem}
use go_load_balancer.Server.{Server, finished, set_header, serve_http}
use go_load_balancer.Server.Isolation.{serve_http_refuses_over_limit}
use go_load_balancer.Samples.{env, whole, route, Items, items, started}
use go_load_balancer.Samples.Store.{Store, store, store-IsRedis}

abbrev limiter : RateLimiter
limiter = record {
  client = record { addr = str "redis:6379"; password = []; db = pos 0 };
  limit = pos 2;
}

abbrev idle : Route CbState
idle = record {
  config = route [] (str "/") [];
  pool = record { backends = []; strategy = []; current = 0 };
}

-- The client has sent two requests.
abbrev server : Server CbState (Items CacheItem) Store
server = record {
  balancer = record started { routes = idle ∷ idle ∷ [] };
  rl = some limiter;
  cache = none;
  db = λ key. (2, 5000000000);
}

abbrev request : Request
request = record {
  method = str "GET";
  host = str "example.org";
  path = str "/api/users";
  query = [];
  remote_addr = str "10.0.0.7:5123";
  header = λ key. [];
}

abbrev fresh : Writer
fresh = record { headers = []; status = none; body = [] }

-- The first of the two routes is the one that serves.
second_idle :
    (route : Route CbState) → first_match request 0 server.balancer.routes ≢ some (1, route)
unfolding first_match matches headers_match has_prefix is_empty eqs
second_idle other h =
    let place : ◌≡◌ {A = ℕ} 0 1 = ap (λ found. elim found [ none ↦ 2 | some r ↦ r.0 ]) h in
    omega (arith, place)

serve_http_refuses_over_limit_example :
    let (s', stage) = serve_http env whole items store 4000000000 (str "5f") request fresh server in
    (stage
      ≡ finished (
          http_error
            (str "429 Too Many Requests")
            429
            (set_header (str "X-Request-ID") (str "5f") fresh)))
    × (s'.balancer ≡ server.balancer)
    × (s'.cache ≡ none)
serve_http_refuses_over_limit_example =
    serve_http_refuses_over_limit env whole items store store-IsRedis limiter 2 refl
      (λ t key ttl db. (_, refl)) 4000000000 (str "5f") request fresh server refl (omega arith)
