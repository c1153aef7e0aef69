-- ===== src/Backend.antt =====
-- internal/lb/backend.go: a backend, its counters and its health, and how one is made. The locks and
-- atomic operations make each method one step.
use go_load_balancer.Prelude.{
  ℕ, ◌+◌, ◌-◌, ◌%◌, ◌^◌, Bool, false, Option, none, some, List, [], ◌∷◌, ltb, if◌then◌else◌,
}
use go_load_balancer.Prelude.Int.{ℤ, pos, ltb_ℤ}
use go_load_balancer.Text.{Str}
use go_load_balancer.Config.{BackendConfig, CircuitBreakerConfig}
use go_load_balancer.Extern.{Settings, Env}

-- The proxy of an L7 backend and its URL are not kept: the handler calls the proxy through a
-- parameter. A `*Backend` of a pool is the position of the backend in the pool's list, which never
-- changes after the pool is built.
pub record Backend (Cb : Type 0) : Type 0 where
  pub addr : Str
  pub healthy : Bool
  pub weight : ℤ
  pub current_weight : ℤ
  pub connections : ℕ
  pub cb : Option Cb

pub record BackendPool (Cb : Type 0) : Type 0 where
  pub backends : List (Backend Cb)
  pub strategy : Str
  pub current : ℕ

-- atomic.AddUint64
abbrev pub add_u64 : ℕ → ℕ → ℕ
add_u64 a b = (a + b) % 2 ^ 64

-- The weight of a new backend, where the configuration gives none above zero.
unfoldable pub default_weight : ℤ → ℤ
default_weight w = if ltb_ℤ (pos 0) w then w else pos 1

module _ {Cb : Type 0} where
  unfoldable pub is_healthy : Backend Cb → Bool
  is_healthy b = b.healthy

  unfoldable pub set_health : Bool → Backend Cb → Backend Cb
  set_health healthy b = record b { healthy = healthy }

  unfoldable pub increment_connections : Backend Cb → Backend Cb
  increment_connections b = record b { connections = add_u64 b.connections 1 }

  -- ^uint64(0) is 2^64 - 1.
  unfoldable pub decrement_connections : Backend Cb → Backend Cb
  decrement_connections b = record b { connections = add_u64 b.connections (2 ^ 64 - 1) }

  unfoldable pub get_connections : Backend Cb → ℕ
  get_connections b = b.connections

  unfoldable pub total_connections : ℕ → List (Backend Cb) → ℕ
  unfolding get_connections
  total_connections total [] = total
  total_connections total (b ∷ bs) = total_connections (add_u64 total (get_connections b)) bs

  unfoldable pub get_total_connections : BackendPool Cb → ℕ
  get_total_connections p = total_connections 0 p.backends

module _ {Cb : Type 0} (env : Env Cb) where
  -- gobreaker's ReadyToTrip reads the consecutive failures.
  unfoldable pub breaker_settings : Str → CircuitBreakerConfig → Settings
  breaker_settings addr c = record {
    name = addr;
    ready_to_trip = λ failures. ltb c.consecutive_failures failures;
    timeout = c.open_state_timeout;
  }

  unfoldable pub new_breaker : Str → Option CircuitBreakerConfig → Option Cb
  unfolding breaker_settings
  new_breaker addr none = none
  new_breaker addr (some c) = if c.enabled then some (env.new (breaker_settings addr c)) else none

  unfoldable pub new_l4_backend : BackendConfig → Option CircuitBreakerConfig → Backend Cb
  unfolding new_breaker default_weight
  new_l4_backend bc cb_cfg = record {
    addr = bc.addr;
    healthy = false;
    weight = default_weight bc.weight;
    current_weight = pos 0;
    connections = 0;
    cb = new_breaker bc.addr cb_cfg;
  }

  -- A URL that does not parse gives no backend.
  unfoldable pub new_l7_backend : BackendConfig → Option CircuitBreakerConfig → Option (Backend Cb)
  unfolding new_breaker default_weight
  new_l7_backend bc cb_cfg =
      if env.parses bc.addr
      then some (record {
        addr = bc.addr;
        healthy = false;
        weight = default_weight bc.weight;
        current_weight = pos 0;
        connections = 0;
        cb = new_breaker bc.addr cb_cfg;
      })
      else none
