-- ===== src/Serve/Counters.antt =====
-- The writes of the handler of internal/lb/loadbalancer.go to its pool: the connection counters and
-- the breakers.
use go_load_balancer.Prelude.{
  ℕ, ◌≡◌, refl, some, arith, Bool-cases, Option-cases, inl, inr, get_elem?, modify,
  get_elem?-modify_self, get_elem?-modify-none,
}
use go_load_balancer.Backend.{Backend, decrement_connections}
use go_load_balancer.Serve.{Exchange, needs_conns, on_pool, count_out, set_cb, breaker_at}

module _ {Cb K : Type 0} where
  breaker_at-some :
      (i : ℕ) (ex : Exchange Cb K) (b : Backend Cb)
      → get_elem? ex.pool.backends i ≡ some b
      → breaker_at i ex ≡ b.cb
  unfolding breaker_at
  breaker_at-some i ex b h = ground (arith, h)

  pub backend_of_breaker :
      (i : ℕ) (ex : Exchange Cb K) (c : Cb)
      → breaker_at i ex ≡ some c
      → (b : Backend Cb) × (get_elem? ex.pool.backends i ≡ some b)
  unfolding breaker_at
  backend_of_breaker i ex c h = elim (Option-cases (get_elem? ex.pool.backends i)) [
    | inl out ↦ absurd (ground (arith, h, out))
    | inr there ↦ there
  ]

  pub breaker_at-set_cb :
      (i : ℕ) (c c' : Cb) (ex : Exchange Cb K)
      → breaker_at i ex ≡ some c
      → breaker_at i (set_cb i c' ex) ≡ some c'
  unfolding set_cb on_pool
  breaker_at-set_cb i c c' ex h =
      let (b, there) = backend_of_breaker i ex c h in
      breaker_at-some i (set_cb i c' ex) (record b { cb = some c' })
        (get_elem?-modify_self ex.pool.backends i (λ b. record b { cb = some c' }) there)

  -- A write to the backend of a position that leaves its breaker alone.
  breaker_at-modify :
      (i : ℕ) (g : Backend Cb → Backend Cb) (ex : Exchange Cb K)
      → ((b : Backend Cb) → (g b).cb ≡ b.cb)
      → breaker_at i (on_pool (λ bs. modify bs i g) ex) ≡ breaker_at i ex
  unfolding on_pool breaker_at
  breaker_at-modify i g ex same = elim (Option-cases (get_elem? ex.pool.backends i)) [
    | inl out ↦ ground (arith, out, get_elem?-modify-none ex.pool.backends i g out)
    | inr (b, there) ↦
        ground (arith, there, get_elem?-modify_self ex.pool.backends i g there, same b)
  ]

  pub breaker_at-count_out :
      (i : ℕ) (ex : Exchange Cb K) → breaker_at i (count_out i ex) ≡ breaker_at i ex
  unfolding count_out decrement_connections
  breaker_at-count_out i ex = elim (Bool-cases (needs_conns ex.pool.strategy)) [
    | inl counts ↦ rw counts (breaker_at-modify i decrement_connections ex (λ b. refl))
    | inr free ↦ rw free refl
  ]
