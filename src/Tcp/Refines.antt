-- ===== src/Tcp/Refines.antt =====
-- A TCP connection of internal/lb/tcp_proxy.go as an implementation of `Flight`, with every
-- connection counted.
use go_load_balancer.Prelude.{
  ℕ, ◌≡◌, true, false, Option, none, some, List, Option-cases, inl, inr, get_elem?, Bool,
}
use go_load_balancer.Text.{Str}
use go_load_balancer.Extern.{Env, FloatOps, Refusal}
use go_load_balancer.Backend.{BackendPool}
use go_load_balancer.Strategy.{get_next_backend}
use go_load_balancer.Flight.{
  Pc, arrived, chosen, counted, done, chooses, finds_none, enters, gives_up, leaves, trips, Steps,
  here, next, move,
}
use go_load_balancer.Flight.Moves.{Runs, onward, there_now}
use go_load_balancer.Tcp.{
  TcpStage, over, dialling, proxying, with_backend, set_breaker, pool_breaker, tcp_refusal,
  tcp_admit, tcp_settle, tcp_chosen, tcp_begin, tcp_dialled, tcp_finish,
}

-- Where a stage of a connection stands in the protocol.
abbrev pub tcp_pc : TcpStage → Pc
tcp_pc over = done
tcp_pc (dialling i) = chosen i
tcp_pc (proxying i) = counted i

module _ {Cb : Type 0} (env : Env Cb) (f : FloatOps) (fs : List Pc) where
  -- What Execute does after the call is a new state of the breaker, or nothing.
  pub settle_refines :
      (success : Bool) (i : ℕ) (cb : Option Cb) (p q : BackendPool Cb) (gs : List Pc)
      → Runs env f true fs p q gs
      → Runs env f true fs p (tcp_settle env f success i cb q) gs
  unfolding tcp_settle set_breaker with_backend
  settle_refines success i none p q gs run = run
  settle_refines success i (some c) p q gs run = next run (trips i (some (env.settle success c)))

  module _ (k : ℕ) where
    refusal_refines :
        (i : ℕ) (refusal : Option Refusal) (p q : BackendPool Cb)
        → get_elem? fs k ≡ some arrived
        → Runs env f true fs p q (move fs k (chosen i))
        → let (q', stage) = tcp_refusal env f refusal i q in
          Runs env f true fs p q' (move fs k (tcp_pc stage))
    unfolding tcp_refusal
    refusal_refines i none p q h run = run
    refusal_refines i (some refusal) p q h run =
        onward env f true fs k p q q (chosen i) done run
          (gives_up k i (there_now env f true fs k arrived (chosen i) h))

    admit_refines :
        (i : ℕ) (cb : Option Cb) (p q : BackendPool Cb)
        → get_elem? fs k ≡ some arrived
        → Runs env f true fs p q (move fs k (chosen i))
        → let (q', stage) = tcp_admit env f cb i q in
          Runs env f true fs p q' (move fs k (tcp_pc stage))
    unfolding tcp_admit set_breaker with_backend
    admit_refines i none p q h run = run
    admit_refines i (some c) p q h run =
        let (refusal, c') = env.admit c in
        refusal_refines i refusal p (set_breaker i c' q) h (next run (trips i (some c')))

    -- A connection up to the call of proxyTcp, whatever the strategy chooses and the breaker says,
    -- goes by steps of the protocol, which leave all others where they are, from its arrival to its
    -- choice, or to its end.
    pub tcp_begin_refines :
        (client : Str) (p : BackendPool Cb)
        → get_elem? fs k ≡ some arrived
        → let (p', stage) = tcp_begin env f client p in
          Steps env f true
            (record { pool = p; flights = fs })
            (record { pool = p'; flights = move fs k (tcp_pc stage) })
    unfolding tcp_begin tcp_chosen
    tcp_begin_refines client p h = elim (Option-cases (get_next_backend env f client p).1) [
      | inl missed ↦ rw missed (next here (finds_none k client h missed))
      | inr (i, found) ↦ rw found (
          admit_refines i (pool_breaker i (get_next_backend env f client p).0) p
            (get_next_backend env f client p).0 h (next here (chooses k i client h found)))
    ]

    -- From its choice it goes, if the backend is dialled, to being counted there, and else to its
    -- end.
    pub tcp_dialled_refines :
        (success : Bool) (i : ℕ) (p : BackendPool Cb)
        → get_elem? fs k ≡ some (chosen i)
        → let (p', stage) = tcp_dialled env f success i p in
          Steps env f true
            (record { pool = p; flights = fs })
            (record { pool = p'; flights = move fs k (tcp_pc stage) })
    unfolding tcp_dialled with_backend
    tcp_dialled_refines true i p h = next here (enters k i h)
    tcp_dialled_refines false i p h =
        settle_refines false i (pool_breaker i p) p p (move fs k done) (next here (gives_up k i h))

    -- And from being counted, when both copies have ended, to its end.
    pub tcp_finish_refines :
        (i : ℕ) (p : BackendPool Cb)
        → get_elem? fs k ≡ some (counted i)
        → Steps env f true
            (record { pool = p; flights = fs })
            (record { pool = tcp_finish env f i p; flights = move fs k done })
    unfolding tcp_finish with_backend
    tcp_finish_refines i p h =
        settle_refines true i _ p _ (move fs k done) (next here (leaves k i h))

-- The parts of a connection, each with what it meets: its client, whether its backend is dialled, and
-- the end of both copies.
pub data TcpEvent : Type 0 where
  begins : Str → TcpEvent
  dials : Bool → ℕ → TcpEvent
  ends : ℕ → TcpEvent

-- Where the connection stands before a part.
abbrev pub before_event : TcpEvent → Pc
before_event (begins client) = arrived
before_event (dials success i) = chosen i
before_event (ends i) = counted i

module _ {Cb : Type 0} (env : Env Cb) (f : FloatOps) where
  -- What a part leaves, and where the connection stands then.
  unfoldable pub tcp_event : TcpEvent → BackendPool Cb → BackendPool Cb × Pc
  tcp_event (begins client) p = let (p', stage) = tcp_begin env f client p in (p', tcp_pc stage)
  tcp_event (dials success i) p =
      let (p', stage) = tcp_dialled env f success i p in (p', tcp_pc stage)
  tcp_event (ends i) p = (tcp_finish env f i p, done)

  -- Each part of a connection, whatever the strategy chooses, the breaker says and the dial brings,
  -- implements the protocol: by its steps the connection goes from where it stands to where the part
  -- leaves it, while all others stay where they are, and the pool is the one that the part leaves.
  pub tcp_event_refines :
      (e : TcpEvent) (p : BackendPool Cb) (fs : List Pc) (k : ℕ)
      → get_elem? fs k ≡ some (before_event e)
      → let (p', pc) = tcp_event e p in
        Steps env f true
          (record { pool = p; flights = fs })
          (record { pool = p'; flights = move fs k pc })
  unfolding tcp_event
  tcp_event_refines (begins client) p fs k h = tcp_begin_refines env f fs k client p h
  tcp_event_refines (dials success i) p fs k h = tcp_dialled_refines env f fs k success i p h
  tcp_event_refines (ends i) p fs k h = tcp_finish_refines env f fs k i p h
