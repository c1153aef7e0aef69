-- ===== src/Serve/Runs.antt =====
-- The requests of a route of internal/lb/loadbalancer.go, any number of them and in any interleaving,
-- with the health checks of their pool.
use go_load_balancer.Prelude.{
  ℕ, ◌≡◌, ◌%◌, ◌^◌, refl, ap, subst, ◌∙◌, Bool, true, false, some, List, [], ◌∷◌, get_elem?, All,
  if◌then◌else◌,
}
use go_load_balancer.Extern.{Env, FloatOps}
use go_load_balancer.Backend.{BackendPool}
use go_load_balancer.Pool.Health.{run_health_checks-strategy}
use go_load_balancer.Strategy.Choice.{get_next_backend-IsSound}
use go_load_balancer.Flight.{
  Pc, move, State, Step, arrives, chooses, finds_none, skips, enters, gives_up, leaves, trips,
  checks, Steps, here, next, left,
}
use go_load_balancer.Flight.Inside.{inside}
use go_load_balancer.Flight.Counts.{counters}
use go_load_balancer.Flight.Runs.{Move, Parts, IsFlight, make_moves, moves_are_counted}
use go_load_balancer.Http.{ItemCache}
use go_load_balancer.Serve.{Exchange, needs_conns}
use go_load_balancer.Serve.Refines.{entered-strategy}
use go_load_balancer.Serve.Events.{ServeEvent, before_event, serve_event, serve_event_refines}

module _ {Cb : Type 0} where
  left-strategy :
      (counts : Bool) (i : ℕ) (p : BackendPool Cb) → (left counts i p).strategy ≡ p.strategy
  left-strategy true i p = refl
  left-strategy false i p = refl

  Step-strategy :
      {env : Env Cb} {f : FloatOps} {counts : Bool} {s t : State Cb}
      → Step env f counts s t
      → t.pool.strategy ≡ s.pool.strategy
  Step-strategy arrives = refl
  Step-strategy {env = env} {f = f} {s = s} (chooses k i ip there found) =
      let (_, _, same) = get_next_backend-IsSound env f ip s.pool in same
  Step-strategy {env = env} {f = f} {s = s} (finds_none k ip there missed) =
      let (_, _, same) = get_next_backend-IsSound env f ip s.pool in same
  Step-strategy (skips k there) = refl
  Step-strategy {counts = counts} {s = s} (enters k i there) = entered-strategy counts i s.pool
  Step-strategy (gives_up k i there) = refl
  Step-strategy {counts = counts} {s = s} (leaves k i there) = left-strategy counts i s.pool
  Step-strategy (trips i c) = refl
  Step-strategy {env = env} {s = s} (checks dials) = run_health_checks-strategy env dials s.pool

  Steps-strategy :
      {env : Env Cb} {f : FloatOps} {counts : Bool} {s t : State Cb}
      → Steps env f counts s t
      → t.pool.strategy ≡ s.pool.strategy
  Steps-strategy here = refl
  Steps-strategy (next steps step) = Step-strategy step ∙ Steps-strategy steps

module _ {Cb K : Type 0} (env : Env Cb) (f : FloatOps) (items : ItemCache K) where
  abbrev pub serve_parts : Parts Cb (Exchange Cb K) ServeEvent
  serve_parts = record {
    pool_of = λ ex. ex.pool;
    with_pool = λ p ex. record ex { pool = p };
    before = before_event;
    part = serve_event env f items;
  }

  abbrev Counts : Bool → Exchange Cb K → Type 0
  Counts counts ex = needs_conns ex.pool.strategy ≡ counts

  event_runs :
      (counts : Bool) (e : ServeEvent) (ex : Exchange Cb K) (fs : List Pc) (k : ℕ)
      → Counts counts ex
      → get_elem? fs k ≡ some (before_event e)
      → Steps env f counts
          (record { pool = ex.pool; flights = fs })
          (record {
            pool = (serve_event env f items e ex).0.pool;
            flights = move fs k (serve_event env f items e ex).1;
          })
  event_runs counts e ex fs k inv h =
      subst
        (λ c.
          Steps env f c (record { pool = ex.pool; flights = fs })
            (record {
              pool = (serve_event env f items e ex).0.pool;
              flights = move fs k (serve_event env f items e ex).1;
            }))
        inv (serve_event_refines env f items e ex fs k h)

  serve_parts-IsFlight : (counts : Bool) → IsFlight env f serve_parts counts (Counts counts)
  serve_parts-IsFlight counts = record {
    pool_of_with = λ p ex. refl;
    checks_keep =
        λ dials ex inv. ap needs_conns (run_health_checks-strategy env dials ex.pool) ∙ inv;
    part_keeps = λ e ex inv.
        ap needs_conns
          (Steps-strategy (serve_event_refines env f items e ex (before_event e ∷ []) 0 refl))
        ∙ inv;
    refines = λ e ex fs k inv h. event_runs counts e ex fs k inv h;
  }

  -- From a pool whose counters are all 0, after any moves of any number of requests of its route, of
  -- which each runs its parts in their order, to its reply or to a panic of the proxy, and of health
  -- checks: under a strategy that compares
  -- connections, the counter of a backend is the number of the requests that have been sent to it and
  -- whose handlers have not ended, modulo 2^64, and under any other strategy it is 0.
  pub requests_are_counted :
      (ex : Exchange Cb K) (ms : List (Move ServeEvent))
      → All (λ b. b.connections ≡ 0) ex.pool.backends
      → let s = make_moves env f serve_parts ms (record { held = ex; flights = [] }) in
        (i n : ℕ)
        → get_elem? (counters s.held.pool) i ≡ some n
        → n ≡ (if needs_conns ex.pool.strategy then inside i s.flights else 0) % 2 ^ 64
  requests_are_counted ex ms idle i n h =
      moves_are_counted env f serve_parts (needs_conns ex.pool.strategy)
        (Counts (needs_conns ex.pool.strategy))
        (serve_parts-IsFlight (needs_conns ex.pool.strategy)) ex ms refl idle i n h
