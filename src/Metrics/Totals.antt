-- ===== src/Metrics/Totals.antt =====
-- The total that internal/lb/metrics.go reports against its lines of the backends.
use go_load_balancer.Prelude.{
  ℕ, ◌≡◌, ◌+◌, ◌%◌, ◌^◌, ◌<◌, refl, ap, ◌∙◌, Option, none, some, List, [], ◌∷◌, ◌++◌, map, arith,
  sum,
}
use go_load_balancer.Text.{Str}
use go_load_balancer.Extern.{Env}
use go_load_balancer.Backend.{Backend, BackendPool, add_u64, get_connections, get_total_connections}
use go_load_balancer.Pool.Connections.{get_total_connections_lem}
use go_load_balancer.Route.{Route}
use go_load_balancer.Balancer.{LoadBalancer}
use go_load_balancer.Metrics.{
  Line, backend_health_status, backend_active_connections, backend_circuit_state, blank,
  total_active_connections, cache_item_count, route_label, listener_label, circuit_lines,
  backend_lines, pool_lines, l7_lines, l4_lines, cache_lines, metrics,
}

-- The sum of the connections that the lines report of backends, and the totals among the lines.
abbrev pub reported : List Line → ℕ
reported [] = 0
reported (backend_active_connections label n ∷ ls) = n + reported ls
reported (backend_health_status label n ∷ ls) = reported ls
reported (backend_circuit_state label n ∷ ls) = reported ls
reported (blank ∷ ls) = reported ls
reported (total_active_connections n ∷ ls) = reported ls
reported (cache_item_count n ∷ ls) = reported ls

abbrev pub totals : List Line → List ℕ
totals [] = []
totals (total_active_connections n ∷ ls) = n ∷ totals ls
totals (backend_active_connections label n ∷ ls) = totals ls
totals (backend_health_status label n ∷ ls) = totals ls
totals (backend_circuit_state label n ∷ ls) = totals ls
totals (blank ∷ ls) = totals ls
totals (cache_item_count n ∷ ls) = totals ls

reported-append : (xs ys : List Line) → reported (xs ++ ys) ≡ reported xs + reported ys
reported-append [] ys = omega arith
reported-append (backend_active_connections label n ∷ xs) ys = omega (arith, reported-append xs ys)
reported-append (backend_health_status label n ∷ xs) ys = reported-append xs ys
reported-append (backend_circuit_state label n ∷ xs) ys = reported-append xs ys
reported-append (blank ∷ xs) ys = reported-append xs ys
reported-append (total_active_connections n ∷ xs) ys = reported-append xs ys
reported-append (cache_item_count n ∷ xs) ys = reported-append xs ys

totals-append : (xs ys : List Line) → totals (xs ++ ys) ≡ totals xs ++ totals ys
totals-append [] ys = refl
totals-append (total_active_connections n ∷ xs) ys = ap (λ ns. n ∷ ns) (totals-append xs ys)
totals-append (backend_active_connections label n ∷ xs) ys = totals-append xs ys
totals-append (backend_health_status label n ∷ xs) ys = totals-append xs ys
totals-append (backend_circuit_state label n ∷ xs) ys = totals-append xs ys
totals-append (blank ∷ xs) ys = totals-append xs ys
totals-append (cache_item_count n ∷ xs) ys = totals-append xs ys

module _ {Cb : Type 0} (env : Env Cb) where
  -- The lines of one backend, before others.
  backend_lines-reported :
      (label : Str) (b : Backend Cb) (rest : List Line)
      → (reported (backend_lines env label b ++ rest) ≡ b.connections + reported rest)
        × (totals (backend_lines env label b ++ rest) ≡ totals rest)
  unfolding backend_lines circuit_lines get_connections
  backend_lines-reported label b rest = split b.cb
    where
      split :
          (cb : Option Cb)
          → (b.connections + reported ((circuit_lines env label cb ++ blank ∷ []) ++ rest)
              ≡ b.connections + reported rest)
            × (totals ((circuit_lines env label cb ++ blank ∷ []) ++ rest) ≡ totals rest)
      split none = (refl, refl)
      split (some c) = (refl, refl)

  pool_lines-reported :
      (label : Str → Str) (bs : List (Backend Cb))
      → (reported (pool_lines env label bs) ≡ sum (map (λ b. b.connections) bs))
        × (totals (pool_lines env label bs) ≡ [])
  unfolding pool_lines
  pool_lines-reported label [] = (refl, refl)
  pool_lines-reported label (b ∷ bs) =
      let (here, none_here) = backend_lines-reported (label b.addr) b (pool_lines env label bs) in
      let (later, none_later) = pool_lines-reported label bs in
      (omega (arith, here, later), none_here ∙ none_later)

  -- The lines of one pool, before those of others that carry the total on.
  one_pool :
      (total total' : ℕ) (label : Str → Str) (p : BackendPool Cb) (rest : List Line)
      → total' ≡ (add_u64 total (get_total_connections p) + reported rest) % 2 ^ 64
      → totals rest ≡ []
      → (total' ≡ (total + reported (pool_lines env label p.backends ++ rest)) % 2 ^ 64)
        × (totals (pool_lines env label p.backends ++ rest) ≡ [])
  one_pool total total' label p rest h none_later =
      let (here, none_here) = pool_lines-reported label p.backends in
      let both = reported-append (pool_lines env label p.backends) rest in
      let wrapped = get_total_connections_lem p in
      (
        omega (arith, h, here, both, wrapped),
        totals-append (pool_lines env label p.backends) rest
            ∙ ap (λ ns. ns ++ totals rest) none_here
            ∙ none_later,
      )

  l7_lines-total :
      (total : ℕ) (routes : List (Route Cb))
      → total < 2 ^ 64
      → let (lines, total') = l7_lines env total routes in
        (total' ≡ (total + reported lines) % 2 ^ 64) × (totals lines ≡ [])
  unfolding l7_lines
  l7_lines-total total [] small = (omega (arith, small), refl)
  l7_lines-total total (route ∷ routes) small =
      let next = add_u64 total (get_total_connections route.pool) in
      let (h, none_later) = l7_lines-total next routes (omega arith) in
      one_pool total (l7_lines env next routes).1 (route_label route.config) route.pool
        (l7_lines env next routes).0 h none_later

  l4_lines-total :
      (total : ℕ) (pools : List (Str × BackendPool Cb))
      → total < 2 ^ 64
      → let (lines, total') = l4_lines env total pools in
        (total' ≡ (total + reported lines) % 2 ^ 64) × (totals lines ≡ [])
  unfolding l4_lines
  l4_lines-total total [] small = (omega (arith, small), refl)
  l4_lines-total total ((name, pool) ∷ pools) small =
      let next = add_u64 total (get_total_connections pool) in
      let (h, none_later) = l4_lines-total next pools (omega arith) in
      one_pool total (l4_lines env next pools).1 (listener_label name) pool
        (l4_lines env next pools).0 h none_later

  last_lines :
      (total : ℕ) (cached : Option ℕ)
      → let end = blank ∷ total_active_connections total ∷ cache_lines env cached in
        (totals end ≡ total ∷ []) × (reported end ≡ 0)
  unfolding cache_lines
  last_lines total none = (refl, refl)
  last_lines total (some n) = (refl, refl)

  -- A scrape while no counter moves reports one total, which is the sum of the connections that its
  -- other lines report of the backends of all routes and of all TCP and UDP listeners, modulo 2^64,
  -- whatever the order in which the listeners are visited.
  pub metrics_total :
      (order : List (Str × BackendPool Cb) → List (Str × BackendPool Cb)) (cached : Option ℕ)
      (lb : LoadBalancer Cb)
      → let lines = metrics env order cached lb in totals lines ≡ reported lines % 2 ^ 64 ∷ []
  unfolding metrics
  metrics_total order cached lb =
      let (l7, total7) = l7_lines env 0 lb.routes in
      let (l4, total4) = l4_lines env total7 (order lb.l4_pools) in
      let (sum7, none7) = l7_lines-total 0 lb.routes (omega arith) in
      let (sum4, none4) = l4_lines-total total7 (order lb.l4_pools) (omega (arith, sum7)) in
      let (one, no_more) = last_lines total4 cached in
      let end = blank ∷ total_active_connections total4 ∷ cache_lines env cached in
      let both = reported-append (l7 ++ l4) end in
      let rest = reported-append l7 l4 in
      totals-append (l7 ++ l4) end
      ∙ ap (λ ns. ns ++ totals end) (totals-append l7 l4 ∙ ap (λ ns. ns ++ totals l4) none7 ∙ none4)
      ∙ one
      ∙ ap (λ n. n ∷ []) (omega (arith, sum7, sum4, both, rest, no_more))
