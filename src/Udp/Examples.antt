-- ===== src/Udp/Examples.antt =====
-- The theorems about UDP at a proxy with one backend, whose flow is of the client 10.0.0.7:5123.
use mathlib.Core.List.{Mem, Nodup, Nodup-nil, Nodup-cons, not-mem-nil, mem_of_ne_of_mem}
use go_load_balancer.Prelude.{
  List, ◌%◌, ◌^◌, ℕ, ◌≡◌, refl, true, false, none, some, [], ◌∷◌, arith, get_elem?,
}
use go_load_balancer.Prelude.Int.{pos}
use go_load_balancer.Text.{Str, str, eqs, eqs_iff}
use go_load_balancer.Extern.{CbState}
use go_load_balancer.Backend.{
  Backend, increment_connections, decrement_connections, get_connections,
}
use go_load_balancer.Flight.{arrived, counted, Steps, move}
use go_load_balancer.Strategy.{get_next_backend, get_next_by_least_conns, skipped}
use go_load_balancer.Tcp.{tcp_chosen, tcp_admit, pool_breaker, tcp_settle, with_backend}
use go_load_balancer.Udp.{
  UdpFlow, UdpProxy, open_flow, proxy_udp, listener_end, timed_out, listen_for_backend,
  handle_udp_packet, new_session, on_session, udp_settle, release, find_backend, write_flow,
}
use go_load_balancer.Udp.Loop.{
  Reader, arrival, udp_turn, received_length, slice, late_handler_reads_next,
}
use go_load_balancer.Udp.Sessions.{handle_all, new_session_carries_all, closed_flow_keeps_session}
use go_load_balancer.Udp.Release.{addresses, unmatched_flow_stays_counted}
use go_load_balancer.Udp.Race.{Packet, flow_of, race, raced_flow_is_orphaned}
use go_load_balancer.Flight.Inside.{inside}
use go_load_balancer.Flight.Runs.{Move, starts, runs, make_moves, make_move, run_part}
use go_load_balancer.Udp.Runs.{
  udp_parts, matched_part, is_matched, far_end_is, udp_flows_are_counted,
}
use go_load_balancer.Udp.Refines.{UdpEvent, begins, dials, ends, udp_event, udp_event_refines}
use go_load_balancer.Samples.{env, whole, Items, items, items-IsGoCache}

abbrev server : Backend CbState
server = record {
  addr = str "dns:53";
  healthy = true;
  weight = pos 1;
  current_weight = pos 0;
  connections = 0;
  cb = none;
}

abbrev client : Str
client = str "10.0.0.7:5123"

abbrev flow : UdpFlow
flow = record { client_addr = client; remote_addr = str "10.1.0.1:53"; is_open = false; sent = [] }

-- A session that was made at the time 0, and whose flow has been closed.
abbrev proxy : UdpProxy CbState (Items ℕ)
proxy = record {
  pool = record { backends = server ∷ []; strategy = []; current = 0 };
  listener_name = str "dns";
  sessions = items.set 0 client 0 (λ key. none);
  stopped = false;
  flows = flow ∷ [];
  answers = [];
}

abbrev other : Str
other = str "10.0.0.9:40"

new_session_carries_all_example :
    let p' = proxy_udp items env whole (some (str "10.1.0.1:53")) true 7 other (str "a") 0 proxy in
    let q = handle_all items env whole other ((9, str "b") ∷ (60, str "c") ∷ []) p' in
    (q.pool ≡ p'.pool)
    × (get_elem? q.flows 1
        ≡ some (record {
          client_addr = other;
          remote_addr = str "10.1.0.1:53";
          is_open = true;
          sent = str "a" ∷ str "b" ∷ str "c" ∷ [];
        }))
new_session_carries_all_example =
    new_session_carries_all items items-IsGoCache env whole 7 other (str "a") (str "10.1.0.1:53")
      true 0 ((9, str "b") ∷ (60, str "c") ∷ []) proxy
      (omega arith, omega arith, (omega arith, omega arith, tt))

closed_flow_keeps_session_example :
    let q = handle_all items env whole client ((9, str "b") ∷ []) proxy in
    (q.pool ≡ proxy.pool) × (q.flows ≡ proxy.flows) × (items.get 68 client q.sessions ≡ some 0)
closed_flow_keeps_session_example =
    closed_flow_keeps_session items items-IsGoCache env whole client 0 0 68 (λ key. none) flow
      ((9, str "b") ∷ []) proxy refl refl refl (omega arith, omega arith, tt) (omega arith)
      (omega arith)

abbrev reader : Reader
reader = record { buffer = str "......"; handlers = []; running = true }

late_handler_reads_next_example :
    let h : Str × ℕ = (client, received_length (str "abc") reader.buffer) in
    let once = udp_turn (arrival client (str "abc")) reader in
    let twice = udp_turn (arrival other (str "vwxyz")) once in
    (once.handlers ≡ h ∷ []) × (slice h once ≡ str "abc") × (slice h twice ≡ str "vwx")
late_handler_reads_next_example =
    late_handler_reads_next reader client other (str "abc") (str "vwxyz") (omega arith)
      (omega arith)

unmatched : ¬ Mem (str "10.1.0.1:53") (addresses proxy.pool.backends)
unfolding eqs
unmatched m =
    not-mem-nil (mem_of_ne_of_mem (λ e. cc ((eqs_iff (str "10.1.0.1:53") (str "dns:53")).1 e)) m)

unmatched_flow_stays_counted_example :
    get_elem?
      (listener_end items 1
        (open_flow items 7 other (str "a") (str "10.1.0.1:53") 0 proxy)).pool.backends
      0
    ≡ some (increment_connections server)
unmatched_flow_stays_counted_example =
    unmatched_flow_stays_counted items 7 other (str "a") (str "10.1.0.1:53") 0 server proxy
      unmatched refl

distinct : Nodup (addresses proxy.pool.backends)
distinct = Nodup-cons.1 (not-mem-nil, Nodup-nil)

-- The first packet of a new client.
udp_event_refines_example :
    let (p', pc) = udp_event items env whole (begins 7 other (str "a")) proxy in
    Steps env whole true
      (record { pool = proxy.pool; flights = counted 0 ∷ arrived ∷ [] })
      (record { pool = p'.pool; flights = move (counted 0 ∷ arrived ∷ []) 1 pc })
udp_event_refines_example =
    udp_event_refines items env whole (begins 7 other (str "a")) proxy (counted 0 ∷ arrived ∷ []) 1
      distinct tt refl

-- The second packet's handler runs between the first's choice and its dial.
abbrev first_packet : Packet
first_packet = record { time = 7; bytes = str "a"; remote = str "10.1.0.1:53"; writes = true }

abbrev second_packet : Packet
second_packet = record { time = 8; bytes = str "b"; remote = str "10.1.0.1:53"; writes = true }

abbrev raced : UdpProxy CbState (Items ℕ)
raced = record proxy { pool = record proxy.pool { strategy = str "least-connections" } }

raced_flow_is_orphaned_example :
    let q =
      handle_all items env whole other
        ((9, str "c") ∷ [])
        (race items env whole other first_packet second_packet raced) in
    (get_elem? q.flows 1 ≡ some (flow_of other first_packet))
    × (get_elem? q.flows 2
        ≡ some (record (flow_of other second_packet) { sent = str "b" ∷ str "c" ∷ [] }))
    × (listen_for_backend items 68 timed_out 1 q ≡ q)
unfolding handle_udp_packet new_session eqs on_session tcp_chosen get_next_backend
    get_next_by_least_conns skipped get_connections tcp_admit pool_breaker
raced_flow_is_orphaned_example =
    raced_flow_is_orphaned items env whole items-IsGoCache other first_packet second_packet 0 0 68
      ((9, str "c") ∷ []) raced refl refl refl refl (omega arith, omega arith, tt) (omega arith)
      (omega arith)

-- Two clients whose flows are opened, and of which the second's has ended, at a server that is
-- configured by its address.
abbrev resolved : UdpProxy CbState (Items ℕ)
resolved = record raced {
  pool = record raced.pool { backends = record server { addr = str "b" } ∷ [] };
  sessions = λ key. none;
  flows = [];
}

abbrev packets : List (Move UdpEvent)
packets =
    starts
    ∷ runs 0 (begins 7 (str "u") (str "a"))
    ∷ runs 0 (dials (some (str "b")) true 7 (str "u") (str "a") 0)
    ∷ starts
    ∷ runs 1 (begins 8 (str "v") (str "a"))
    ∷ runs 1 (dials (some (str "b")) true 8 (str "v") (str "a") 0)
    ∷ runs 1 (ends 0 1)
    ∷ []

udp_flows_are_counted_example :
    1
    ≡ inside 0
        (make_moves env whole
          (udp_parts items env whole)
          packets
          (record { held = resolved; flights = [] })).flights
      % 2 ^ 64
unfolding make_moves make_move matched_part is_matched udp_event handle_udp_packet on_session eqs
    new_session tcp_chosen get_next_backend get_next_by_least_conns skipped get_connections
    tcp_admit pool_breaker proxy_udp udp_settle increment_connections decrement_connections run_part
    tcp_settle with_backend far_end_is listener_end open_flow release find_backend write_flow
udp_flows_are_counted_example =
    udp_flows_are_counted items env whole resolved packets (Nodup-cons.1 (not-mem-nil, Nodup-nil))
      (refl, tt) 0 1 refl
