-- ===== src/Server.antt =====
-- internal/lb/loadbalancer.go: what NewLoadBalancer makes of the limiter and the cache, and ServeHTTP
-- from a request to its reply or to the call of a backend.
pub mod Isolation
mod Examples
use go_load_balancer.Prelude.{
  ℕ, Bool, true, false, not, Option, none, some, List, [], ◌∷◌, ◌++◌, modify, if◌then◌else◌,
}
use go_load_balancer.Text.{Str, str, eqs}
use go_load_balancer.Config.{Config, ListenerConfig, RateLimitConfig, CacheConfig, RedisConfig}
use go_load_balancer.Extern.{Env, FloatOps}
use go_load_balancer.Backend.{BackendPool}
use go_load_balancer.Route.{Request, Route, first_match}
use go_load_balancer.Balancer.{LoadBalancer, Sort, is_l7, listeners, new_load_balancer}
use go_load_balancer.RateLimit.{Redis, RateLimiter, new_rate_limiter, allow}
use go_load_balancer.Http.{Writer, http_error, ItemCache}
use go_load_balancer.Serve.{client_ip, Exchange, Stage, replied, sent, begin}

-- A LoadBalancer with its limiter and its cache, and what the Redis server stores.
pub record Server (Cb K Db : Type 0) : Type 0 where
  pub balancer : LoadBalancer Cb
  pub rl : Option RateLimiter
  pub cache : Option K
  pub db : Db

-- Where a request stands: it has its reply, or it waits for a backend of the route of a position.
pub data Served : Type 0 where
  finished : Writer → Served
  waiting : ℕ → ℕ → Served

-- Header().Set
unfoldable pub set_header : Str → Str → Writer → Writer
set_header key value w = record w { headers = put key value w.headers }
  where
    put : Str → Str → List (Str × Str) → List (Str × Str)
    put key value [] = (key, value) ∷ []
    put key value ((k, v) ∷ hs) =
        let rest = put key value hs in if eqs k key then rest else (k, v) ∷ rest

-- http.NotFound
abbrev pub not_found : Writer → Writer
not_found w = http_error (str "404 page not found") 404 w

module _ {Db K : Type 0} (redis : Redis Db) (f : FloatOps) (new_cache : CacheConfig → K) where
  unfoldable pub limiter_of : Option RateLimitConfig → Option RedisConfig → Option RateLimiter
  limiter_of none redis_cfg = none
  limiter_of (some c) redis_cfg =
      if c.enabled then new_rate_limiter redis f (some c) redis_cfg else none

  unfoldable pub cache_of : Option CacheConfig → Option K
  cache_of none = none
  cache_of (some c) = if c.enabled then some (new_cache c) else none

  -- The loop of NewLoadBalancer, which ends at the first HTTP or HTTPS listener.
  unfoldable pub services : Option RedisConfig → List ListenerConfig → Option RateLimiter × Option K
  unfolding limiter_of cache_of
  services redis_cfg [] = (none, none)
  services redis_cfg (l ∷ ls) =
      let rest = services redis_cfg ls in
      if is_l7 l then (limiter_of l.rate_limit redis_cfg, cache_of l.cache) else rest

  -- NewLoadBalancer
  unfoldable pub new_server :
      {Cb : Type 0} → Env Cb → Sort Cb → List ListenerConfig → Config → Db → Server Cb K Db
  new_server env sort heap cfg db =
      let (rl, cache) = services cfg.redis (listeners heap cfg.listeners) in
      record { balancer = new_load_balancer env sort heap cfg; rl = rl; cache = cache; db = db }

module _ {Cb K Db : Type 0} (env : Env Cb) (f : FloatOps) (items : ItemCache K)
    (redis : Redis Db) where
  -- The limiter's word on a request.
  unfoldable pub limited : Option RateLimiter → ℕ → Str → Db → Bool × Db
  limited none t ip db = (true, db)
  limited (some rl) t ip db = allow redis rl t ip db

  unfoldable pub served : ℕ → Stage → Served
  served j (replied w) = finished w
  served j (sent i) = waiting j i

  -- route.handler.ServeHTTP, on the pool of the route.
  unfoldable pub run_handler :
      ℕ → Request → ℕ → Route Cb → Writer → Server Cb K Db → Server Cb K Db × Served
  unfolding served
  run_handler t r j route w s =
      let (ex, stage) = begin env f items t r (record { pool = route.pool; cache = s.cache }) w in
      (
        record s {
          balancer = record s.balancer {
            routes = modify s.balancer.routes j (λ route. record route { pool = ex.pool });
          };
          cache = ex.cache;
        },
        served j stage,
      )

  unfoldable pub on_route :
      ℕ → Request → Option (ℕ × Route Cb) → Writer → Server Cb K Db → Server Cb K Db × Served
  on_route t r none w s = (s, finished (not_found w))
  on_route t r (some (j, route)) w s = run_handler t r j route w s

  unfoldable pub on_verdict : Bool → ℕ → Request → Writer → Server Cb K Db → Server Cb K Db × Served
  on_verdict false t r w s = (s, finished (http_error (str "429 Too Many Requests") 429 w))
  on_verdict true t r w s = on_route t r (first_match r 0 s.balancer.routes) w s

  -- ServeHTTP, with the request's identifier.
  unfoldable pub serve_http : ℕ → Str → Request → Writer → Server Cb K Db → Server Cb K Db × Served
  serve_http t id r w s =
      let (allowed, db) = limited s.rl t (client_ip r) s.db in
      on_verdict allowed t r (set_header (str "X-Request-ID") id w) (record s { db = db })
