-- ===== src/Main/Shutdown.antt =====
-- cmd/lb/main.go: what SIGINT and SIGTERM make of the program: every proxy is shut down, goroutines
-- wait for the proxies and shut the servers down, and main waits for these goroutines. No HTTP listener
-- fails in these runs: one that does calls os.Exit(1), which ends the program at once.
pub mod Settled
pub mod Group
pub mod Blocks
pub mod Exits
pub mod Returns
use go_load_balancer.Prelude.{
  ℕ, zero, suc, ◌+◌, ◌-◌, Bool, false, not, inl, inr, Option, none, some, List, [], ◌∷◌, ◌++◌,
  if◌then◌else◌, map, length, get_elem?, modify,
}
use go_load_balancer.Text.{Str, is_empty}
use go_load_balancer.Config.{Config}
use go_load_balancer.Extern.{Env}
use go_load_balancer.Balancer.{Sort}
use go_load_balancer.Http.{GoCache}
use go_load_balancer.Tcp.Waits.{TcpWaits, TcpAct, accepting, tcp_act, close_listener}
use go_load_balancer.Udp.Waits.{UdpWaits, UdpAct, unstarted, udp_act, stop_listener, wait_count}
use go_load_balancer.Main.{Program, Sockets, Loaded, start_program}

-- A goroutine that calls Wait of one proxy after the other: the position of the next, or its end.
pub data Waiter : Type 0 where
  waiting : ℕ → Waiter
  finished : Waiter

-- main: in its loop over the signals, waiting for its goroutines, or returned, which ends the program.
pub data MainStage : Type 0 where
  serving draining exited : MainStage

-- `servers` counts the HTTP servers and the admin server, `shutting` those whose Shutdown has been
-- called and has not answered, and `pending` is the count of main's wait group. A goroutine of main
-- that has not started counts as finished.
pub record Drain : Type 0 where
  pub main : MainStage
  pub tcp : List TcpWaits
  pub udp : List UdpWaits
  pub servers : ℕ
  pub tcp_waiter : Waiter
  pub udp_waiter : Waiter
  pub shutting : ℕ
  pub pending : ℕ

-- What happens next: a goroutine of a proxy moves, the program is asked to end, a goroutine of main
-- moves, or main leaves its wait.
pub data Event : Type 0 where
  tcp_moves : ℕ → TcpAct → Event
  udp_moves : ℕ → UdpAct → Event
  sigterm tcp_waits udp_waits server_shuts main_waits : Event

-- Wait of the next proxy, over the counts of the proxies.
unfoldable pub on_count : Option ℕ → ℕ → Waiter
on_count none k = finished
on_count (some zero) k = waiting (suc k)
on_count (some (suc n)) k = waiting k

unfoldable pub wait_next : List ℕ → Waiter → Waiter
unfolding on_count
wait_next counts finished = finished
wait_next counts (waiting k) = on_count (get_elem? counts k) k

-- The deferred Done of such a goroutine.
unfoldable pub done_after : Waiter → Waiter → ℕ → ℕ
done_after (waiting k) finished n = n - 1
done_after (waiting k) (waiting j) n = n
done_after finished w n = n

abbrev pub tcp_counts : Drain → List ℕ
tcp_counts s = map (λ l. l.active) s.tcp

abbrev pub udp_counts : Drain → List ℕ
udp_counts s = map wait_count s.udp

-- The branch of SIGINT and SIGTERM up to wg.Wait.
unfoldable pub shut_down : Drain → Drain
shut_down s = record s {
  main = draining;
  tcp = map close_listener s.tcp;
  udp = map stop_listener s.udp;
  tcp_waiter = waiting 0;
  udp_waiter = waiting 0;
  shutting = s.servers;
  pending = 2 + s.servers;
}

unfoldable pub on_sigterm : MainStage → Drain → Drain
unfolding shut_down
on_sigterm serving s = shut_down s
on_sigterm draining s = s
on_sigterm exited s = s

-- A server's goroutine, once its Shutdown has answered, with or without an error.
unfoldable pub server_done : ℕ → Drain → Drain
server_done zero s = s
server_done (suc n) s = record s { shutting = n; pending = s.pending - 1 }

-- wg.Wait, where main has come to it.
unfoldable pub leave_wait : MainStage → ℕ → Drain → Drain
leave_wait draining zero s = record s { main = exited }
leave_wait draining (suc n) s = s
leave_wait serving n s = s
leave_wait exited n s = s

-- One event, in the program that has not ended.
unfoldable pub proceed : Event → Drain → Drain
unfolding on_sigterm server_done leave_wait
proceed (tcp_moves i act) s = record s { tcp = modify s.tcp i (tcp_act act) }
proceed (udp_moves i act) s = record s { udp = modify s.udp i (udp_act act) }
proceed sigterm s = on_sigterm s.main s
proceed tcp_waits s =
    let w = wait_next (tcp_counts s) s.tcp_waiter in
    record s { tcp_waiter = w; pending = done_after s.tcp_waiter w s.pending }
proceed udp_waits s =
    let w = wait_next (udp_counts s) s.udp_waiter in
    record s { udp_waiter = w; pending = done_after s.udp_waiter w s.pending }
proceed server_shuts s = server_done s.shutting s
proceed main_waits s = leave_wait s.main s.pending s

unfoldable pub at_stage : MainStage → Event → Drain → Drain
unfolding proceed
at_stage serving e s = proceed e s
at_stage draining e s = proceed e s
at_stage exited e s = s

unfoldable pub happen : List Event → Drain → Drain
unfolding at_stage
happen [] s = s
happen (e ∷ es) s = happen es (at_stage s.main e s)

-- main as it enters its loop over the signals, with or without an admin server.
unfoldable pub drain_of : {Cb K : Type 0} → Bool → Program Cb K → Drain
drain_of admin p = record {
  main = serving;
  tcp = map (λ _. record { is_closed = false; run = accepting; active = 0 }) p.tcp_proxies;
  udp =
      map (λ _. record { is_stopped = false; loop = unstarted; handlers = 0; carriers = 0 })
        p.udp_proxies;
  servers = length p.http_servers + (if admin then 1 else 0);
  tcp_waiter = finished;
  udp_waiter = finished;
  shutting = 0;
  pending = 0;
}

-- Whether main starts an admin server.
unfoldable pub starts_admin : Config → Bool
starts_admin cfg = not (is_empty cfg.admin_addr)

module _ {Cb K : Type 0} (env : Env Cb) (sort : Sort Cb) (sessions : GoCache ℕ K)
    (secure insecure : List (Str × ℕ)) (sockets : Sockets K) where
  -- main up to its signals: the program ends where its configuration does not load.
  unfoldable pub launch : Loaded → Option (Program Cb K × Drain)
  unfolding drain_of starts_admin
  launch (inl error) = none
  launch (inr (ls, cfg)) =
      let p = start_program env sort sessions secure insecure sockets ls cfg in
      some (p, drain_of (starts_admin cfg) p)
