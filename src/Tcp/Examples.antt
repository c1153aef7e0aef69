-- ===== src/Tcp/Examples.antt =====
-- The theorems about TCP connections at the pool of one listener.
use go_load_balancer.Prelude.{◌≡◌, ◌%◌, ◌^◌, refl, true, false, none, List, [], ◌∷◌}
use go_load_balancer.Prelude.Int.{pos}
use go_load_balancer.Text.{str, eqs}
use go_load_balancer.Extern.{CbState}
use go_load_balancer.Backend.{BackendPool, get_connections, increment_connections}
use go_load_balancer.Strategy.{skipped, get_next_by_least_conns, get_next_backend}
use go_load_balancer.Balancer.{build_l4_pools, listeners}
use go_load_balancer.Flight.Inside.{inside}
use go_load_balancer.Tcp.{
  lookup_pool, with_backend, pool_breaker, tcp_admit, tcp_settle, tcp_chosen, tcp_begin,
  tcp_dialled,
}
use go_load_balancer.Tcp.Pools.{last_l4, pool_or, build_l4_pools_lem}
use go_load_balancer.Tcp.Refines.{TcpEvent, begins, dials, tcp_event}
use go_load_balancer.Tcp.Runs.{tcp_parts, tcp_connections_are_counted}
use go_load_balancer.Flight.Runs.{Move, starts, runs, make_move, make_moves}
use go_load_balancer.Samples.{env, sort, whole, heap, config}

build_l4_pools_lem_example :
    lookup_pool (str "postgres") (build_l4_pools env sort heap (config (0 ∷ 1 ∷ [])))
    ≡ pool_or env sort
        (config (0 ∷ 1 ∷ []))
        (str "postgres")
        none
        (last_l4 (str "postgres") (listeners heap (0 ∷ 1 ∷ [])))
build_l4_pools_lem_example = build_l4_pools_lem env sort (config (0 ∷ 1 ∷ [])) (str "postgres") heap

-- Two connections to a backend of its own, of which the second cannot dial.
abbrev fresh : BackendPool CbState
fresh = record {
  backends =
      record {
        addr = str "d:1";
        healthy = true;
        weight = pos 1;
        current_weight = pos 0;
        connections = 0;
        cb = none;
      }
      ∷ [];
  strategy = str "least-connections";
  current = 0;
}

abbrev moves : List (Move TcpEvent)
moves =
    starts
    ∷ runs 0 (begins (str "10.0.0.7:5123"))
    ∷ runs 0 (dials true 0)
    ∷ starts
    ∷ runs 1 (begins (str "10.0.0.9:40"))
    ∷ runs 1 (dials false 0)
    ∷ []

tcp_connections_are_counted_example :
    1
    ≡ inside 0
        (make_moves env whole
          (tcp_parts env whole)
          moves
          (record { held = fresh; flights = [] })).flights
      % 2 ^ 64
unfolding make_moves make_move tcp_event tcp_begin tcp_chosen tcp_admit tcp_dialled tcp_settle
    with_backend pool_breaker increment_connections get_next_backend get_next_by_least_conns skipped
    get_connections eqs
tcp_connections_are_counted_example =
    tcp_connections_are_counted env whole fresh moves (refl, tt) 0 1 refl
