-- ===== src/Flight.antt =====
-- The life of the requests and connections that share a pool, as the handler of a route in
-- internal/lb/loadbalancer.go and handleTcpConnection in internal/lb/tcp_proxy.go run it: goroutines
-- that choose a backend, count themselves in, and count themselves out, in any interleaving with one
-- another and with the health checks.
pub mod Moves
pub mod Inside
pub mod Counts
pub mod Runs
use go_load_balancer.Prelude.{
  ℕ, ◌≡◌, Bool, true, false, Option, none, some, List, [], ◌∷◌, ◌++◌, get_elem?, modify,
  if◌then◌else◌, map,
}
use go_load_balancer.Text.{Str}
use go_load_balancer.Extern.{Env, FloatOps}
use go_load_balancer.Backend.{Backend, BackendPool, increment_connections, decrement_connections}
use go_load_balancer.Pool.{run_health_checks}
use go_load_balancer.Strategy.{get_next_backend}

-- Where a request stands: before its choice, with a backend chosen, counted at it, and over.
pub data Pc : Type 0 where
  arrived : Pc
  chosen : ℕ → Pc
  counted : ℕ → Pc
  done : Pc

pub record State (Cb : Type 0) : Type 0 where
  pub pool : BackendPool Cb
  pub flights : List Pc

abbrev pub move : List Pc → ℕ → Pc → List Pc
move fs k pc = modify fs k (λ _. pc)

module _ {Cb : Type 0} where
  abbrev pub with_backends : List (Backend Cb) → BackendPool Cb → BackendPool Cb
  with_backends bs p = record p { backends = bs }

  -- IncrementConnections and DecrementConnections of a position, where the strategy counts.
  abbrev pub entered : Bool → ℕ → BackendPool Cb → BackendPool Cb
  entered counts i p =
      if counts then with_backends (modify p.backends i increment_connections) p else p

  abbrev pub left : Bool → ℕ → BackendPool Cb → BackendPool Cb
  left counts i p =
      if counts then with_backends (modify p.backends i decrement_connections) p else p

  -- A breaker's new state.
  abbrev pub tripped : ℕ → Option Cb → BackendPool Cb → BackendPool Cb
  tripped i c p = with_backends (modify p.backends i (λ b. record b { cb = c })) p

-- One step of one goroutine. `counts` says whether requests are counted at all.
pub data Step {Cb : Type 0} (env : Env Cb) (f : FloatOps) (counts : Bool) (s : State Cb)
    : State Cb → Type 0 where
  arrives : Step env f counts s (record s { flights = s.flights ++ arrived ∷ [] })
  chooses :
      (k i : ℕ) (ip : Str)
      → get_elem? s.flights k ≡ some arrived
      → (get_next_backend env f ip s.pool).1 ≡ some i
      → Step env f counts s (record {
        pool = (get_next_backend env f ip s.pool).0;
        flights = move s.flights k (chosen i);
      })
  finds_none :
      (k : ℕ) (ip : Str)
      → get_elem? s.flights k ≡ some arrived
      → (get_next_backend env f ip s.pool).1 ≡ none
      → Step env f counts s
          (record { pool = (get_next_backend env f ip s.pool).0; flights = move s.flights k done })
  skips :
      (k : ℕ)
      → get_elem? s.flights k ≡ some arrived
      → Step env f counts s (record s { flights = move s.flights k done })
  enters :
      (k i : ℕ)
      → get_elem? s.flights k ≡ some (chosen i)
      → Step env f counts s
          (record { pool = entered counts i s.pool; flights = move s.flights k (counted i) })
  gives_up :
      (k i : ℕ)
      → get_elem? s.flights k ≡ some (chosen i)
      → Step env f counts s (record s { flights = move s.flights k done })
  leaves :
      (k i : ℕ)
      → get_elem? s.flights k ≡ some (counted i)
      → Step env f counts s
          (record { pool = left counts i s.pool; flights = move s.flights k done })
  trips : (i : ℕ) (c : Option Cb) → Step env f counts s (record s { pool = tripped i c s.pool })
  checks :
      (dials : Str → Bool)
      → Step env f counts s (record s { pool = run_health_checks env dials s.pool })

-- Any number of steps.
pub data Steps {Cb : Type 0} (env : Env Cb) (f : FloatOps) (counts : Bool) (s : State Cb)
    : State Cb → Type 0 where
  here : Steps env f counts s s
  next : {t u : State Cb} → Steps env f counts s t → Step env f counts t u → Steps env f counts s u
