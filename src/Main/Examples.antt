-- ===== src/Main/Examples.antt =====
-- The program with the listeners of the examples, and a SIGHUP that loads a configuration without the
-- TCP listener; and its shutdown with one connection of the TCP listener.
use go_load_balancer.Prelude.{
  inl, inr, ℕ, ◌≡◌, ◌≤◌, refl, arith, true, false, List, get_elem?, none, some, [], ◌∷◌, ◌++◌, All,
}
use go_load_balancer.Config.{decode_failed}
use go_load_balancer.Extern.{CbState}
use go_load_balancer.Balancer.{build_l4_pools}
use go_load_balancer.Text.{str}
use go_load_balancer.Tcp.{lookup_pool}
use go_load_balancer.Tcp.Waits.{
  TcpWaits, accepting, holding, accepts, spawns, connection_ends, tcp_act, on_accept, on_spawn,
  close_listener,
}
use go_load_balancer.Udp.Waits.{
  UdpWaits, starts_loop, ends_loop, udp_act, on_start, on_end, stop_listener, wait_count,
  loop_count,
}
use go_load_balancer.Main.{Program, Sockets, start_program, on_sighup, on_sighups}
use go_load_balancer.Main.Reloads.{proxies_keep_start_pools}
use go_load_balancer.Main.Shutdown.{
  Event, finished, draining, exited, tcp_moves, udp_moves, sigterm, tcp_waits, udp_waits,
  server_shuts, main_waits, happen, drain_of, at_stage, proceed, on_sigterm, shut_down, leave_wait,
  server_done, wait_next, on_count, done_after,
}
use go_load_balancer.Main.Shutdown.Settled.{left_over}
use go_load_balancer.Main.Shutdown.Exits.{exit_follows_connections}
use go_load_balancer.Main.Shutdown.Blocks.{open_connection_keeps_main}
use go_load_balancer.Main.Shutdown.Returns.{wind_up, idle_program_exits}
use go_load_balancer.Samples.{started, env, sort, heap, web, config, Items, items}

abbrev sockets : Sockets (Items ℕ)
sockets = record {
  listens_tcp = λ addr. true;
  resolves_udp = λ addr. true;
  listens_udp = λ addr. true;
  new_sessions = λ key. none;
}

abbrev before : Program CbState (Items ℕ)
before =
    on_sighups env sort items [] [] sockets (inl decode_failed ∷ [])
      (start_program env sort items [] [] sockets heap (config (0 ∷ 1 ∷ [])))

proxies_keep_start_pools_example :
    let now = on_sighup env sort items [] [] sockets (inr (web ∷ [], config (2 ∷ []))) before in
    let at_start = build_l4_pools env sort heap (config (0 ∷ 1 ∷ [])) in
    (now.balancer.l4_pools
      ≡ build_l4_pools env sort (before.balancer.heap ++ web ∷ []) (config (2 ∷ [])))
    × All (λ x. some x.pool ≡ lookup_pool x.listener_name at_start) now.tcp_proxies
    × All (λ x. some x.pool ≡ lookup_pool x.listener_name at_start) now.udp_proxies
proxies_keep_start_pools_example =
    proxies_keep_start_pools env sort items [] [] sockets heap (config (0 ∷ 1 ∷ []))
      (inl decode_failed ∷ []) (web ∷ []) (config (2 ∷ []))

abbrev program : Program CbState (Items ℕ)
program = record {
  balancer = started;
  http_servers = [];
  tcp_proxies =
      record {
        pool = record { backends = []; strategy = str "round-robin"; current = 0 };
        listener_name = str "postgres";
      }
      ∷ [];
  udp_proxies =
      record {
        pool = record { backends = []; strategy = str "round-robin"; current = 0 };
        listener_name = str "dns";
        sessions = λ key. none;
        stopped = false;
        flows = [];
        answers = [];
      }
      ∷ [];
}

-- A connection comes before the program is asked to end, and ends after.
abbrev one_connection : List Event
one_connection =
    udp_moves 0 starts_loop
    ∷ tcp_moves 0 accepts
    ∷ tcp_moves 0 spawns
    ∷ sigterm
    ∷ tcp_moves 0 accepts
    ∷ tcp_waits
    ∷ tcp_moves 0 connection_ends
    ∷ udp_moves 0 ends_loop
    ∷ []

exit_follows_connections_example :
    let s =
      happen
        (one_connection ++ wind_up (happen one_connection (drain_of true program)))
        (drain_of true program) in
    (s.tcp_waiter ≡ finished)
    × (s.udp_waiter ≡ finished)
    × (s.shutting ≡ 0)
    × ((i : ℕ) (l : TcpWaits)
        → get_elem? s.tcp i ≡ some l
        → (l.is_closed ≡ true) × (left_over l ≤ 1))
    × ((i : ℕ) (l : UdpWaits) → get_elem? s.udp i ≡ some l → l.is_stopped ≡ true)
unfolding happen at_stage proceed on_sigterm shut_down leave_wait server_done wait_next on_count
    done_after drain_of tcp_act on_accept on_spawn close_listener udp_act on_start on_end
    stop_listener wait_count loop_count
exit_follows_connections_example =
    exit_follows_connections true program
      (one_connection ++ wind_up (happen one_connection (drain_of true program))) refl

open_connection_keeps_main_example :
    (happen
      (sigterm ∷ tcp_waits ∷ udp_waits ∷ server_shuts ∷ main_waits ∷ [])
      (happen (tcp_moves 0 accepts ∷ tcp_moves 0 spawns ∷ []) (drain_of true program))).main
    ≡ draining
unfolding happen at_stage proceed on_sigterm shut_down leave_wait server_done wait_next on_count
    done_after drain_of tcp_act on_accept on_spawn close_listener udp_act on_start on_end
    stop_listener wait_count loop_count
open_connection_keeps_main_example =
    open_connection_keeps_main
      (happen (tcp_moves 0 accepts ∷ tcp_moves 0 spawns ∷ []) (drain_of true program)) 0
      (record { is_closed = false; run = accepting; active = 1 })
      (tcp_waits ∷ udp_waits ∷ server_shuts ∷ main_waits ∷ []) refl refl (omega arith)

idle_program_exits_example :
    let s = happen one_connection (drain_of true program) in (happen (wind_up s) s).main ≡ exited
unfolding happen at_stage proceed on_sigterm shut_down leave_wait server_done wait_next on_count
    done_after drain_of tcp_act on_accept on_spawn close_listener udp_act on_start on_end
    stop_listener wait_count loop_count
idle_program_exits_example =
    idle_program_exits true program one_connection refl (refl, tt) (refl, tt)

-- A connection that Accept has answered and that Run has not counted is not waited for: main has
-- returned, and the connection is left.
held_connection_is_left :
    let s =
      happen
        (tcp_moves 0 accepts
          ∷ sigterm
          ∷ tcp_waits
          ∷ tcp_waits
          ∷ udp_waits
          ∷ udp_waits
          ∷ server_shuts
          ∷ main_waits
          ∷ [])
        (drain_of true program) in
    (s.main ≡ exited) × (s.tcp ≡ record { is_closed = true; run = holding; active = 0 } ∷ [])
unfolding happen at_stage proceed on_sigterm shut_down leave_wait server_done wait_next on_count
    done_after drain_of tcp_act on_accept on_spawn close_listener udp_act on_start on_end
    stop_listener wait_count loop_count
held_connection_is_left = (refl, refl)
