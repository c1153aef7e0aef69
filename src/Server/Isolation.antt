-- ===== src/Server/Isolation.antt =====
-- ServeHTTP of internal/lb/loadbalancer.go: a request reaches no more than the pool of its route, and
-- one beyond the limit reaches none.
use go_load_balancer.Prelude.{
  ℕ, ◌≡◌, ◌≢◌, ◌≤◌, refl, ap, ◌∙◌, Bool, true, false, Option, none, some, arith, get_elem?,
  get_elem?-modify_ne,
}
use go_load_balancer.Prelude.Int.{ℤ, pos}
use go_load_balancer.Text.{Str, str}
use go_load_balancer.Extern.{Env, FloatOps}
use go_load_balancer.Route.{Request, Route, first_match}
use go_load_balancer.Balancer.{LoadBalancer}
use go_load_balancer.RateLimit.{Redis, IsRedis, RateLimiter, key_of, allow}
use go_load_balancer.RateLimit.Counts.{allow-verdict}
use go_load_balancer.Http.{Writer, http_error, ItemCache}
use go_load_balancer.Serve.{client_ip}
use go_load_balancer.Server.{
  Server, finished, set_header, limited, run_handler, on_route, on_verdict, serve_http,
}

module _ {Cb K Db : Type 0} (env : Env Cb) (f : FloatOps) (items : ItemCache K)
    (redis : Redis Db) where
  -- What a request leaves of another route, of the L4 pools and of the configuration.
  abbrev Keeps : ℕ → LoadBalancer Cb → LoadBalancer Cb → Type 0
  Keeps j lb lb' =
      (get_elem? lb'.routes j ≡ get_elem? lb.routes j)
      × (lb'.l4_pools ≡ lb.l4_pools)
      × (lb'.cfg ≡ lb.cfg)
      × (lb'.heap ≡ lb.heap)

  on_route-Keeps :
      (t : ℕ) (r : Request) (found : Option (ℕ × Route Cb)) (w : Writer) (s : Server Cb K Db)
      (j : ℕ)
      → ((route : Route Cb) → found ≢ some (j, route))
      → Keeps j s.balancer (on_route env f items redis t r found w s).0.balancer
  unfolding on_route run_handler
  on_route-Keeps t r none w s j other = (refl, refl, refl, refl)
  on_route-Keeps t r (some (i, route)) w s j other = (
    get_elem?-modify_ne s.balancer.routes i j _
        (λ same. other route (ap (λ n. some (n, route)) same)),
    refl,
    refl,
    refl,
  )

  on_verdict-Keeps :
      (allowed : Bool) (t : ℕ) (r : Request) (w : Writer) (s : Server Cb K Db) (j : ℕ)
      → ((route : Route Cb) → first_match r 0 s.balancer.routes ≢ some (j, route))
      → Keeps j s.balancer (on_verdict env f items redis allowed t r w s).0.balancer
  unfolding on_verdict
  on_verdict-Keeps false t r w s j other = (refl, refl, refl, refl)
  on_verdict-Keeps true t r w s j other =
      on_route-Keeps t r (first_match r 0 s.balancer.routes) w s j other

  -- Whatever comes of a request, up to its reply or to the call of a backend: a route that is not the
  -- first that matches is as it was, with its pool, and so are the pools of the TCP and UDP listeners
  -- and the configuration.
  pub serve_http_keeps_others :
      (t : ℕ) (id : Str) (r : Request) (w : Writer) (s : Server Cb K Db) (j : ℕ)
      → ((route : Route Cb) → first_match r 0 s.balancer.routes ≢ some (j, route))
      → let lb' = (serve_http env f items redis t id r w s).0.balancer in
        (get_elem? lb'.routes j ≡ get_elem? s.balancer.routes j)
        × (lb'.l4_pools ≡ s.balancer.l4_pools)
        × (lb'.cfg ≡ s.balancer.cfg)
        × (lb'.heap ≡ s.balancer.heap)
  unfolding serve_http
  serve_http_keeps_others t id r w s j other =
      on_verdict-Keeps (limited env f items redis s.rl t (client_ip r) s.db).0 t r
        (set_header (str "X-Request-ID") id w)
        (record s { db = (limited env f items redis s.rl t (client_ip r) s.db).1 }) j other

  -- A client whose key already counts as many requests as the limit gets a 429, if the pipeline
  -- reaches the server: no route is looked up, and no route, pool, counter or cached answer changes.
  pub serve_http_refuses_over_limit :
      (laws : IsRedis redis) (rl : RateLimiter) (limit : ℕ)
      → rl.limit ≡ pos limit
      → ((t : ℕ) (key : Str) (ttl : ℕ) (db : Db)
          → (n : ℤ) × ((redis.incr_expire t key ttl db).0 ≡ some n))
      → (t : ℕ) (id : Str) (r : Request) (w : Writer) (s : Server Cb K Db) → s.rl ≡ some rl
      → limit ≤ redis.count t (key_of (client_ip r)) s.db
      → let (s', stage) = serve_http env f items redis t id r w s in
        (stage
          ≡ finished
              (http_error (str "429 Too Many Requests") 429 (set_header (str "X-Request-ID") id w)))
        × (s'.balancer ≡ s.balancer)
        × (s'.cache ≡ s.cache)
  unfolding serve_http limited on_verdict
  serve_http_refuses_over_limit laws rl limit bound reached t id r w s on over =
      let no : (allow redis rl t (client_ip r) s.db).0 ≡ false =
        allow-verdict redis laws rl limit bound (client_ip r) reached (client_ip r) t s.db
        ∙ ground (arith, over) in
      rw (on, no) (refl, refl, refl)
