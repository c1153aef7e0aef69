-- ===== src/Serve/Events.antt =====
-- The parts of the handler of internal/lb/loadbalancer.go as events, each of which implements
-- `Flight`.
use go_load_balancer.Prelude.{ℕ, ◌≡◌, some, List, get_elem?}
use go_load_balancer.Extern.{Env, FloatOps}
use go_load_balancer.Route.{Request}
use go_load_balancer.Http.{Writer, Answer, ItemCache}
use go_load_balancer.Flight.{Pc, arrived, counted, done, Steps, move}
use go_load_balancer.Serve.{Exchange, needs_conns, begin, finish, abort}
use go_load_balancer.Serve.Refines.{pc_of, begin_refines, finish_refines, abort_refines}

-- The parts of a handler, each with what it meets: the time and the request; and then either the
-- backend and its answer too, or a panic of that backend's proxy.
pub data ServeEvent : Type 0 where
  begins : ℕ → Request → Writer → ServeEvent
  finishes : ℕ → Request → ℕ → Answer → Writer → ServeEvent
  aborts : ℕ → ServeEvent

-- Where the request stands before a part.
abbrev pub before_event : ServeEvent → Pc
before_event (begins t r w) = arrived
before_event (finishes t r i answer w) = counted i
before_event (aborts i) = counted i

module _ {Cb K : Type 0} (env : Env Cb) (f : FloatOps) (items : ItemCache K) where
  -- What a part leaves, and where the request stands then.
  unfoldable pub serve_event : ServeEvent → Exchange Cb K → Exchange Cb K × Pc
  serve_event (begins t r w) ex =
      let (ex', stage) = begin env f items t r ex w in (ex', pc_of stage)
  serve_event (finishes t r i answer w) ex = ((finish env f items t r i answer ex w).0, done)
  serve_event (aborts i) ex = (abort env f items i ex, done)

  -- Each part of the handler, whatever the cache holds, the strategy chooses, the breaker says and the
  -- backend answers, implements the protocol: by its steps the request goes from where it stands to
  -- where the part leaves it, while all other requests stay where they are, and the pool is the one
  -- that the part leaves.
  pub serve_event_refines :
      (e : ServeEvent) (ex : Exchange Cb K) (fs : List Pc) (k : ℕ)
      → get_elem? fs k ≡ some (before_event e)
      → let (ex', pc) = serve_event e ex in
        Steps env f
          (needs_conns ex.pool.strategy)
          (record { pool = ex.pool; flights = fs })
          (record { pool = ex'.pool; flights = move fs k pc })
  unfolding serve_event
  serve_event_refines (begins t r w) ex fs k h = begin_refines env f items t r ex w fs k h
  serve_event_refines (finishes t r i answer w) ex fs k h =
      finish_refines env f items t r i answer ex w fs k h
  serve_event_refines (aborts i) ex fs k h = abort_refines env f items i ex fs k h
