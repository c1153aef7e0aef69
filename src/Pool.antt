-- ===== src/Pool.antt =====
-- internal/lb/backend.go: the pools of the routes and of the TCP and UDP listeners, and the health
-- checks. The children prove what building a pool keeps of the configuration, what a health check
-- does and how the connections are counted.
pub mod Build
pub mod Fresh
pub mod Health
pub mod Connections
mod Examples
use go_load_balancer.Prelude.{
  Bool, true, false, not, Option, none, some, List, [], ◌∷◌, map, if◌then◌else◌,
}
use go_load_balancer.Text.{Str, str, eqs}
use go_load_balancer.Config.{BackendConfig, CircuitBreakerConfig, RouteConfig, ListenerConfig}
use go_load_balancer.Extern.{CbState, closed, half_open, open_state, Env}
use go_load_balancer.Backend.{
  Backend, BackendPool, is_healthy, set_health, new_l4_backend, new_l7_backend,
}

-- The write m[bc.Addr] = bc into a map[string]*BackendConfig, kept as the list of its values.
put_config : BackendConfig → List BackendConfig → List BackendConfig
put_config bc [] = bc ∷ []
put_config bc (c ∷ cs) = if eqs c.addr bc.addr then bc ∷ cs else c ∷ put_config bc cs

-- The loop that fills staticBackends.
pub static_backends : List BackendConfig → List BackendConfig → List BackendConfig
unfolding put_config
static_backends m [] = m
static_backends m (bc ∷ bcs) = static_backends (put_config bc m) bcs

-- gobreaker.StateOpen, of a state.
unfoldable pub is_open : CbState → Bool
is_open closed = false
is_open half_open = false
is_open open_state = true

module _ {Cb : Type 0} (env : Env Cb) where
  -- The circuit breaker is there, and it is open.
  unfoldable pub cb_open : Option Cb → Bool
  unfolding is_open
  cb_open none = false
  cb_open (some c) = is_open (env.state c)

  -- A nil backend is left out.
  keep_l7 : Option (Backend Cb) → List (Backend Cb) → List (Backend Cb)
  keep_l7 none bs = bs
  keep_l7 (some b) bs = b ∷ bs

  unfoldable pub build_l7_backends :
      List BackendConfig → Option CircuitBreakerConfig → List (Backend Cb)
  unfolding keep_l7
  build_l7_backends [] cb_cfg = []
  build_l7_backends (bc ∷ bcs) cb_cfg =
      keep_l7 (new_l7_backend env bc cb_cfg) (build_l7_backends bcs cb_cfg)

  -- newL4Backend is never nil.
  unfoldable pub build_l4_backends :
      List BackendConfig → Option CircuitBreakerConfig → List (Backend Cb)
  build_l4_backends [] cb_cfg = []
  build_l4_backends (bc ∷ bcs) cb_cfg = new_l4_backend env bc cb_cfg ∷ build_l4_backends bcs cb_cfg

  -- The health checks that it starts are steps of their own, `health_check`.
  unfoldable pub new_l7_backend_pool : RouteConfig → Option CircuitBreakerConfig → BackendPool Cb
  unfolding build_l7_backends static_backends
  new_l7_backend_pool r cb_cfg = record {
    backends = build_l7_backends (env.order (static_backends [] r.backends)) cb_cfg;
    strategy = r.strategy;
    current = 0;
  }

  -- The backends of a UDP listener are not checked: they start as healthy.
  pub new_l4_backend_pool : ListenerConfig → Option CircuitBreakerConfig → BackendPool Cb
  unfolding build_l4_backends static_backends set_health
  new_l4_backend_pool l cb_cfg =
      let backends = build_l4_backends (env.order (static_backends [] l.backends)) cb_cfg in
      record {
        backends = if eqs l.protocol (str "udp") then map (set_health true) backends else backends;
        strategy = l.strategy;
        current = 0;
      }

  -- One check, with whether the dial succeeded.
  unfoldable pub health_check : Bool → Backend Cb → Backend Cb
  unfolding is_healthy set_health
  health_check true b = if not (is_healthy b) then set_health true b else b
  health_check false b = if is_healthy b then set_health false b else b

  -- A tick of the timer: every backend whose circuit is not open is checked. `dials` says which
  -- addresses answer; each goroutine writes to its own backend.
  checked_at_tick : (Str → Bool) → Backend Cb → Backend Cb
  unfolding health_check cb_open
  checked_at_tick dials b = if cb_open b.cb then b else health_check (dials b.addr) b

  pub run_health_checks : (Str → Bool) → BackendPool Cb → BackendPool Cb
  unfolding checked_at_tick
  run_health_checks dials p = record p { backends = map (checked_at_tick dials) p.backends }

  -- The first checks, before the timer, skip no backend.
  pub start_health_checks : (Str → Bool) → BackendPool Cb → BackendPool Cb
  unfolding health_check
  start_health_checks dials p = record p {
    backends = map (λ b. health_check (dials b.addr) b) p.backends;
  }
