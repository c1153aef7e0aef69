-- ===== src/Pool/Examples.antt =====
-- The theorems about new pools at a small configuration.
use mathlib.Core.List.{Mem, Nodup}
use mathlib.Core.List.Perm
use go_load_balancer.Prelude.{ℕ, ◌≡◌, refl, none, some, [], ◌∷◌, map, get_elem?, arith}
use go_load_balancer.Text.{Str, str, eqs}
use go_load_balancer.Config.{BackendConfig}
use go_load_balancer.Extern.{CbState}
use go_load_balancer.Backend.{Backend, BackendPool, new_l4_backend, new_l7_backend}
use go_load_balancer.Pool.{
  static_backends, build_l7_backends, new_l7_backend_pool, new_l4_backend_pool, cb_open,
  start_health_checks,
}
use go_load_balancer.Pool.Build.{last_configured, l4_start, l4_pool_holds_configured}
use go_load_balancer.Pool.Health.{started_pool_serves}
use go_load_balancer.Strategy.{get_next_backend}
use go_load_balancer.Samples.{env, server, route, postgres, whole, whole-IsFloat}

-- The address that stands twice in the configuration has one backend.
l4_pool_holds_configured_example :
    let p = new_l4_backend_pool env postgres none in
    ((addr : Str) (bc : BackendConfig)
      → last_configured addr postgres.backends ≡ some bc
      → Mem (l4_start env postgres none bc) p.backends × (bc.addr ≡ addr))
    × Nodup (map (λ b. b.addr) p.backends)
    × ((addr : Str)
        → last_configured addr postgres.backends ≡ none
        → ¬ Mem addr (map (λ b. b.addr) p.backends))
l4_pool_holds_configured_example = l4_pool_holds_configured env postgres none (λ m. Perm.refl m)

abbrev fresh : BackendPool CbState
fresh =
    new_l7_backend_pool env (route [] (str "/") (server (str "a:1") ∷ server (str "b:1") ∷ [])) none

abbrev second : Backend CbState
second = new_l4_backend env (server (str "b:1")) none

second_there : get_elem? fresh.backends 1 ≡ some second
unfolding new_l7_backend_pool build_l7_backends new_l7_backend new_l4_backend static_backends eqs
second_there = refl

started_pool_serves_example :
    (i : ℕ) × ((get_next_backend env whole []
        (start_health_checks env (λ addr. eqs addr (str "b:1")) fresh)).1
      ≡ some i)
unfolding new_l4_backend cb_open eqs new_l7_backend_pool new_l7_backend
started_pool_serves_example =
    started_pool_serves env (λ addr. eqs addr (str "b:1")) fresh 1 second whole [] whole-IsFloat
      second_there refl refl (omega arith) (omega arith)
