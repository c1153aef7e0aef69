-- ===== src/Tcp/Runs.antt =====
-- The connections of a TCP listener of internal/lb/tcp_proxy.go, any number of them and in any
-- interleaving, with the health checks of their pool.
use go_load_balancer.Prelude.{ℕ, ◌≡◌, ◌%◌, ◌^◌, refl, true, some, List, [], get_elem?, All}
use go_load_balancer.Extern.{Env, FloatOps}
use go_load_balancer.Backend.{BackendPool}
use go_load_balancer.Flight.Inside.{inside}
use go_load_balancer.Flight.Counts.{counters}
use go_load_balancer.Flight.Runs.{Move, Parts, IsFlight, make_moves, moves_are_counted}
use go_load_balancer.Tcp.Refines.{TcpEvent, before_event, tcp_event, tcp_event_refines}

module _ {Cb : Type 0} (env : Env Cb) (f : FloatOps) where
  abbrev pub tcp_parts : Parts Cb (BackendPool Cb) TcpEvent
  tcp_parts = record {
    pool_of = λ p. p;
    with_pool = λ p old. p;
    before = before_event;
    part = tcp_event env f;
  }

  tcp_parts-IsFlight : IsFlight env f tcp_parts true (λ p. Unit)
  tcp_parts-IsFlight = record {
    pool_of_with = λ p old. refl;
    checks_keep = λ dials p inv. tt;
    part_keeps = λ e p inv. tt;
    refines = λ e p fs k inv h. tcp_event_refines env f e p fs k h;
  }

  -- From a pool whose counters are all 0, after any moves of any number of connections, of which each
  -- runs its parts in their order, and of health checks: the counter of a backend is the number of the
  -- connections that have dialled it and whose copies have not ended, modulo 2^64.
  pub tcp_connections_are_counted :
      (p : BackendPool Cb) (ms : List (Move TcpEvent))
      → All (λ b. b.connections ≡ 0) p.backends
      → let s = make_moves env f tcp_parts ms (record { held = p; flights = [] }) in
        (i n : ℕ) → get_elem? (counters s.held) i ≡ some n → n ≡ inside i s.flights % 2 ^ 64
  tcp_connections_are_counted p ms idle i n h =
      moves_are_counted env f tcp_parts true (λ p. Unit) tcp_parts-IsFlight p ms tt idle i n h
