-- ===== src/Pool/Health.antt =====
-- The health checks of a pool, healthCheck and StartHealthChecks of internal/lb/backend.go.
use go_load_balancer.Prelude.{
  ℕ, ◌≡◌, ◌<◌, ◌-◌, ◌^◌, refl, ap, ◌∙◌, Bool, true, false, some, List, [], ◌∷◌, map, get_elem?,
  get_elem?-map, length, length-map, ◌+◌, Bool-cases, inl, inr, if◌then◌else◌,
}
use go_load_balancer.Text.{Str}
use go_load_balancer.Extern.{Env, FloatOps, IsFloat}
use go_load_balancer.Backend.{Backend, BackendPool, is_healthy, set_health}
use go_load_balancer.Pool.{
  cb_open, health_check, checked_at_tick, run_health_checks, start_health_checks,
}
use go_load_balancer.Strategy.{available, get_next_backend}
use go_load_balancer.Strategy.Choice.{get_next_backend_finds}

health_check-healthy :
    {Cb : Type 0} (env : Env Cb) (dialled : Bool) (b : Backend Cb)
    → health_check env dialled b ≡ record b { healthy = dialled }
unfolding health_check is_healthy set_health
health_check-healthy env true b = elim (Bool-cases b.healthy) [
  | inl up ↦ rw up refl
  | inr down ↦ rw down refl
]
health_check-healthy env false b = elim (Bool-cases b.healthy) [
  | inl up ↦ rw up refl
  | inr down ↦ rw down refl
]

module _ {Cb : Type 0} (env : Env Cb) (dials : Str → Bool) (p : BackendPool Cb) (j : ℕ)
    (b : Backend Cb) where
  -- A tick of the timer: a backend whose circuit is not open is healthy from then on if its address
  -- answers and unhealthy if it does not, one whose circuit is open is left as it is, and no other
  -- field of any backend changes.
  pub tick_sets_health :
      get_elem? p.backends j ≡ some b
      → get_elem? (run_health_checks env dials p).backends j
        ≡ some (if cb_open env b.cb then b else record b { healthy = dials b.addr })
  unfolding run_health_checks checked_at_tick
  tick_sets_health there =
      get_elem?-map (checked_at_tick env dials) p.backends j there
      ∙ ap (λ c. some (if cb_open env b.cb then b else c))
          (health_check-healthy env (dials b.addr) b)

  first_check :
      get_elem? p.backends j ≡ some b
      → get_elem? (start_health_checks env dials p).backends j
        ≡ some (record b { healthy = dials b.addr })
  unfolding start_health_checks
  first_check there =
      get_elem?-map (λ c. health_check env (dials c.addr) c) p.backends j there
      ∙ ap some (health_check-healthy env (dials b.addr) b)

  started_length : length (start_health_checks env dials p).backends ≡ length p.backends
  unfolding start_health_checks
  started_length = length-map (λ c. health_check env (dials c.addr) c) p.backends

  started_current : (start_health_checks env dials p).current ≡ p.current
  unfolding start_health_checks
  started_current = refl

  -- Once the first checks of a pool have run, every strategy finds a backend if one of the pool
  -- answers, has a circuit that is not open, and has fewer than 2^64 - 1 connections, as long as the
  -- counter of the round robin does not wrap in this call, and floats compare as IEEE 754 says.
  pub started_pool_serves :
      (f : FloatOps) (ip : Str)
      → IsFloat f
      → get_elem? p.backends j ≡ some b
      → dials b.addr ≡ true
      → cb_open env b.cb ≡ false
      → b.connections < 2 ^ 64 - 1
      → p.current + length p.backends < 2 ^ 64
      → (i : ℕ) × ((get_next_backend env f ip (start_health_checks env dials p)).1 ≡ some i)
  unfolding available is_healthy
  started_pool_serves f ip laws there answers shut few room =
      get_next_backend_finds env f ip (start_health_checks env dials p) j
        (record b { healthy = dials b.addr }) laws (first_check there) (rw (answers, shut) refl) few
        (rw (started_length, started_current) room)

module _ {Cb : Type 0} (env : Env Cb) (dials : Str → Bool) where
  checked-connections : (b : Backend Cb) → (checked_at_tick env dials b).connections ≡ b.connections
  unfolding checked_at_tick
  checked-connections b = elim (Bool-cases (cb_open env b.cb)) [
    | inl open_circuit ↦ rw open_circuit refl
    | inr shut ↦ rw shut (ap (λ c. c.connections) (health_check-healthy env (dials b.addr) b))
  ]

  checked-addr : (b : Backend Cb) → (checked_at_tick env dials b).addr ≡ b.addr
  unfolding checked_at_tick
  checked-addr b = elim (Bool-cases (cb_open env b.cb)) [
    | inl open_circuit ↦ rw open_circuit refl
    | inr shut ↦ rw shut (ap (λ c. c.addr) (health_check-healthy env (dials b.addr) b))
  ]

  -- What a check keeps of a backend, the checks keep of the pool.
  map-checked :
      {B : Type 0} (field : Backend Cb → B)
      → ((b : Backend Cb) → field (checked_at_tick env dials b) ≡ field b)
      → (bs : List (Backend Cb)) → map field (map (checked_at_tick env dials) bs) ≡ map field bs
  map-checked field kept [] = refl
  map-checked field kept (b ∷ bs) = rw (kept b, map-checked field kept bs) refl

  pub run_health_checks-connections :
      (p : BackendPool Cb)
      → map (λ b. b.connections) (run_health_checks env dials p).backends
        ≡ map (λ b. b.connections) p.backends
  unfolding run_health_checks
  run_health_checks-connections p = map-checked (λ b. b.connections) checked-connections p.backends

  pub run_health_checks-strategy :
      (p : BackendPool Cb) → (run_health_checks env dials p).strategy ≡ p.strategy
  unfolding run_health_checks
  run_health_checks-strategy p = refl

  pub run_health_checks-addresses :
      (p : BackendPool Cb)
      → map (λ b. b.addr) (run_health_checks env dials p).backends ≡ map (λ b. b.addr) p.backends
  unfolding run_health_checks
  run_health_checks-addresses p = map-checked (λ b. b.addr) checked-addr p.backends
