-- ===== src/Pool/Connections.antt =====
-- The connection counters of a pool: the total, and what the proxies' increments and decrements do.
use go_load_balancer.Prelude.{ℕ, ◌≡◌, ◌+◌, ◌%◌, ◌^◌, ◌<◌, ap, List, [], ◌∷◌, map, arith, sum}
use go_load_balancer.Backend.{
  Backend, BackendPool, increment_connections, decrement_connections, get_connections,
  total_connections, get_total_connections,
}

module _ {Cb : Type 0} where
  total_connections-sum :
      (total : ℕ) (bs : List (Backend Cb))
      → total < 2 ^ 64
      → total_connections total bs ≡ (total + sum (map (λ b. b.connections) bs)) % 2 ^ 64
  unfolding total_connections get_connections
  total_connections-sum total [] h = omega (arith, h)
  total_connections-sum total (b ∷ bs) h =
      omega (arith, total_connections-sum ((total + b.connections) % 2 ^ 64) bs (omega arith))

  -- The total of a pool is the sum of its backends' counters, modulo 2^64.
  pub get_total_connections_lem :
      (p : BackendPool Cb)
      → get_total_connections p ≡ sum (map (λ b. b.connections) p.backends) % 2 ^ 64
  unfolding get_total_connections
  get_total_connections_lem p = omega (arith, total_connections-sum 0 p.backends (omega arith))

  -- A connection that opens and closes leaves a backend as it was, also if the counter wraps.
  pub increment-decrement :
      (b : Backend Cb)
      → b.connections < 2 ^ 64
      → decrement_connections (increment_connections b) ≡ b
  unfolding increment_connections decrement_connections
  increment-decrement b h = ap (λ n. record b { connections = n }) (omega (arith, h))
