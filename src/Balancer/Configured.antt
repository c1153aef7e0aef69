-- ===== src/Balancer/Configured.antt =====
-- buildL7Routes of internal/lb/loadbalancer.go: the routes that it builds are those of the configuration.
use mathlib.Core.Option.{some-injective}
use go_load_balancer.Prelude.{
  ℕ, zero, suc, ◌≡◌, refl, ap, subst, ◌∙◌, false, inl, inr, some, List, [], ◌∷◌, ◌++◌, map,
  get_elem?, modify, All, All-append, Bool-cases, if◌then◌else◌,
}
use go_load_balancer.Config.{Config, ListenerConfig, RouteConfig}
use go_load_balancer.Extern.{Env}
use go_load_balancer.Backend.{BackendPool}
use go_load_balancer.Pool.{new_l7_backend_pool}
use go_load_balancer.Route.{Route, before}
use go_load_balancer.Route.Order.{IsSort, Sorted, Reorders, nil, cons, swap, chain}
use go_load_balancer.Balancer.{
  LoadBalancer, Sort, less, listeners, is_l7, routes_of, unsorted_routes, build_l7_routes,
  reload_config,
}
use go_load_balancer.Balancer.Choice.{less-IsOrder}

-- The routes that the HTTP and HTTPS listeners of a list ask for.
pub configured_routes : List ListenerConfig → List RouteConfig
configured_routes [] = []
configured_routes (l ∷ ls) =
    let rest = configured_routes ls in if is_l7 l then l.routes ++ rest else rest

module _ {Cb : Type 0} where
  abbrev pub config_of : Route Cb → RouteConfig
  config_of c = c.config

  -- The routes that are served are those that are configured, in the order of their precedence, and
  -- the pool of each chooses by its strategy.
  pub record Follows (lb : LoadBalancer Cb) : Type 0 where
    pub same :
        Reorders (configured_routes (listeners lb.heap lb.cfg.listeners)) (map config_of lb.routes)
    pub ordered : Sorted before (map config_of lb.routes)
    pub strategies : All (λ c. c.pool.strategy ≡ c.config.strategy) lb.routes

  Reorders-map :
      {xs ys : List (Route Cb)} → Reorders xs ys → Reorders (map config_of xs) (map config_of ys)
  Reorders-map nil = nil
  Reorders-map (cons e d) = cons (ap config_of e) (Reorders-map d)
  Reorders-map (swap e f) = swap (ap config_of e) (ap config_of f)
  Reorders-map (chain d e) = chain (Reorders-map d) (Reorders-map e)

  All-Reorders {κ} :
      (P : Route Cb → Type κ) {xs ys : List (Route Cb)} → Reorders xs ys → All P xs → All P ys
  All-Reorders P nil h = tt
  All-Reorders P (cons e d) (p, h) = (subst P e p, All-Reorders P d h)
  All-Reorders P (swap e f) (p, (q, h)) = (subst P f q, (subst P e p, h))
  All-Reorders P (chain d e) h = All-Reorders P e (All-Reorders P d h)

  behind-map :
      (x : RouteConfig) (xs : List (Route Cb))
      → All (λ y. before (config_of y) x ≡ false) xs
      → All (λ rc. before rc x ≡ false) (map config_of xs)
  behind-map x [] h = tt
  behind-map x (y ∷ ys) (first, h) = (first, behind-map x ys h)

  Sorted-map : (xs : List (Route Cb)) → Sorted less xs → Sorted before (map config_of xs)
  Sorted-map [] s = tt
  Sorted-map (x ∷ xs) (first, s) = (behind-map (config_of x) xs first, Sorted-map xs s)

  map-append_configs :
      (xs ys : List (Route Cb)) → map config_of (xs ++ ys) ≡ map config_of xs ++ map config_of ys
  map-append_configs [] ys = refl
  map-append_configs (x ∷ xs) ys = ap (λ zs. config_of x ∷ zs) (map-append_configs xs ys)

  -- A route of which requests and health checks have changed the pool.
  abbrev pub with_pool : BackendPool Cb → Route Cb → Route Cb
  with_pool p c = record c { pool = p }

  pub map-with_pool :
      (xs : List (Route Cb)) (i : ℕ) (p : BackendPool Cb)
      → map config_of (modify xs i (with_pool p)) ≡ map config_of xs
  map-with_pool [] i p = refl
  map-with_pool (x ∷ xs) zero p = refl
  map-with_pool (x ∷ xs) (suc i) p = ap (λ zs. config_of x ∷ zs) (map-with_pool xs i p)

  pub strategies-with_pool :
      (xs : List (Route Cb)) (i : ℕ) (c : Route Cb) (p : BackendPool Cb)
      → get_elem? xs i ≡ some c
      → p.strategy ≡ c.pool.strategy
      → All (λ c. c.pool.strategy ≡ c.config.strategy) xs
      → All (λ c. c.pool.strategy ≡ c.config.strategy) (modify xs i (with_pool p))
  strategies-with_pool [] i c p there keeps h = tt
  strategies-with_pool (x ∷ xs) zero c p there keeps (first, h) =
      (cc (keeps, some-injective x c there, first), h)
  strategies-with_pool (x ∷ xs) (suc i) c p there keeps (first, h) =
      (first, strategies-with_pool xs i c p there keeps h)

module _ {Cb : Type 0} (env : Env Cb) (sort : Sort Cb) where
  module _ (cfg : Config) where
    routes_of-configs : (rcs : List RouteConfig) → map config_of (routes_of env sort cfg rcs) ≡ rcs
    unfolding routes_of
    routes_of-configs [] = refl
    routes_of-configs (rc ∷ rcs) = ap (λ zs. rc ∷ zs) (routes_of-configs rcs)

    unsorted-configs :
        (ls : List ListenerConfig)
        → map config_of (unsorted_routes env sort cfg ls) ≡ configured_routes ls
    unfolding unsorted_routes configured_routes
    unsorted-configs [] = refl
    unsorted-configs (l ∷ ls) = elim (Bool-cases (is_l7 l)) [
      | inl http ↦ rw http (
          map-append_configs (routes_of env sort cfg l.routes) _
          ∙ rw (routes_of-configs l.routes, unsorted-configs ls) refl)
      | inr other ↦ rw other (unsorted-configs ls)
    ]

    routes_of-strategies :
        (rcs : List RouteConfig)
        → All (λ c. c.pool.strategy ≡ c.config.strategy) (routes_of env sort cfg rcs)
    unfolding routes_of new_l7_backend_pool
    routes_of-strategies [] = tt
    routes_of-strategies (rc ∷ rcs) = (refl, routes_of-strategies rcs)

    unsorted-strategies :
        (ls : List ListenerConfig)
        → All (λ c. c.pool.strategy ≡ c.config.strategy) (unsorted_routes env sort cfg ls)
    unfolding unsorted_routes
    unsorted-strategies [] = tt
    unsorted-strategies (l ∷ ls) = elim (Bool-cases (is_l7 l)) [
      | inl http ↦ rw http (
          All-append (λ c. c.pool.strategy ≡ c.config.strategy) (routes_of env sort cfg l.routes) _
            (routes_of-strategies l.routes) (unsorted-strategies ls))
      | inr other ↦ rw other (unsorted-strategies ls)
    ]

  module _ (laws : IsSort sort) where
    pub reload-Follows :
        (cfg : Config) (lb : LoadBalancer Cb) → Follows (reload_config env sort cfg lb)
    unfolding reload_config build_l7_routes
    reload-Follows cfg lb =
        let ls = listeners lb.heap cfg.listeners in
        let routes = unsorted_routes env sort cfg ls in
        let (moved, ordered) = laws.sorts less less-IsOrder routes in
        record {
          same =
              subst (λ rcs. Reorders rcs (map config_of (sort less routes)))
                (unsorted-configs cfg ls) (Reorders-map moved);
          ordered = Sorted-map (sort less routes) ordered;
          strategies =
              All-Reorders (λ c. c.pool.strategy ≡ c.config.strategy) moved
                (unsorted-strategies cfg ls);
        }
