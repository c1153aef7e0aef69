-- ===== src/Main/Shutdown/Exits.antt =====
-- The shutdown of cmd/lb/main.go: what holds when main returns.
use go_load_balancer.Prelude.{
  map_entry, modify_entry, ℕ, zero, suc, ◌≡◌, ◌≤◌, Bool, subst, refl, ap, sym, ◌∙◌, true, some,
  List, [], ◌∷◌, map, arith, get_elem?, modify, inl, inr,
}
use go_load_balancer.Tcp.Waits.{TcpWaits}
use go_load_balancer.Udp.Waits.{
  UdpWaits, UdpAct, udp_act, starts_loop, reads, ends_loop, opens, drops, flow_ends, on_dial,
  stop_listener,
}
use go_load_balancer.Main.{Program}
use go_load_balancer.Main.Shutdown.{
  Drain, Event, Waiter, waiting, finished, MainStage, serving, draining, exited, tcp_moves,
  udp_moves, sigterm, tcp_waits, udp_waits, server_shuts, main_waits, shut_down, on_sigterm,
  server_done, leave_wait, proceed, at_stage, happen, drain_of,
}
use go_load_balancer.Main.Shutdown.Settled.{
  Settled, left_over, close_listener-Settled, tcp_act-Settled, wait_next-Settled,
}
use go_load_balancer.Main.Shutdown.Group.{
  open_waiter, Balanced, tcp_wait-Balanced, udp_wait-Balanced,
}

abbrev pub Stopped : List UdpWaits → Type 0
Stopped ls = (i : ℕ) (l : UdpWaits) → get_elem? ls i ≡ some l → l.is_stopped ≡ true

on_dial_stopped : (n : ℕ) (l : UdpWaits) → (on_dial n l).is_stopped ≡ l.is_stopped
unfolding on_dial
on_dial_stopped zero l = refl
on_dial_stopped (suc n) l = refl

act_stopped : (a : UdpAct) (l : UdpWaits) → (udp_act a l).is_stopped ≡ l.is_stopped
unfolding udp_act
act_stopped starts_loop l = refl
act_stopped reads l = refl
act_stopped ends_loop l = refl
act_stopped opens l = on_dial_stopped l.handlers l
act_stopped drops l = refl
act_stopped flow_ends l = refl

udp_act-Stopped :
    (ls : List UdpWaits) (j : ℕ) (a : UdpAct) → Stopped ls → Stopped (modify ls j (udp_act a))
udp_act-Stopped ls j a inv i l h =
    let (m, there, e) = modify_entry ls j (udp_act a) i l h in
    elim e [
      | inl same ↦ rw same (inv i m there)
      | inr moved ↦ rw moved (act_stopped a m ∙ inv i m there)
    ]

stop_listener-Stopped : (ls : List UdpWaits) → Stopped (map stop_listener ls)
unfolding stop_listener
stop_listener-Stopped ls i l h =
    let (m, there, e) = map_entry ls stop_listener i l h in ap (λ x. x.is_stopped) e

-- Once the program has been asked to end; when main has returned, its wait group is empty too.
abbrev pub Drained : Drain → Type 0
Drained s = Balanced s × Settled s.tcp_waiter s.tcp × Stopped s.udp

abbrev pub Holds : MainStage → Drain → Type 0
Holds serving s = Unit
Holds draining s = Drained s
Holds exited s = Drained s × (s.pending ≡ 0)

server_serving :
    (n : ℕ) (s : Drain) → s.main ≡ serving → Holds (server_done n s).main (server_done n s)
unfolding server_done
server_serving zero s h = rw h tt
server_serving (suc n) s h = rw h tt

server_draining :
    (n : ℕ) (s : Drain)
    → s.main ≡ draining
    → s.shutting ≡ n
    → Drained s
    → Holds (server_done n s).main (server_done n s)
unfolding server_done
server_draining zero s h e d = rw h d
server_draining (suc n) s h e (b, settled, stopped) = rw h (omega (arith, e, b), settled, stopped)

leave_draining :
    (n : ℕ) (s : Drain)
    → s.main ≡ draining
    → s.pending ≡ n
    → Drained s
    → Holds (leave_wait draining n s).main (leave_wait draining n s)
unfolding leave_wait
leave_draining zero s h e d = (d, e)
leave_draining (suc n) s h e d = rw h d

serving_Holds : (e : Event) (s : Drain) → s.main ≡ serving → Holds (proceed e s).main (proceed e s)
unfolding proceed on_sigterm shut_down server_done leave_wait
serving_Holds (tcp_moves i a) s h = rw h tt
serving_Holds (udp_moves i a) s h = rw h tt
serving_Holds sigterm s h = rw h (refl, close_listener-Settled s.tcp, stop_listener-Stopped s.udp)
serving_Holds tcp_waits s h = rw h tt
serving_Holds udp_waits s h = rw h tt
serving_Holds server_shuts s h = server_serving s.shutting s h
serving_Holds main_waits s h = rw (h, leave_wait) tt

draining_Holds :
    (e : Event) (s : Drain) → s.main ≡ draining → Drained s → Holds (proceed e s).main (proceed e s)
unfolding proceed on_sigterm server_done leave_wait
draining_Holds (tcp_moves i a) s h (b, settled, stopped) =
    rw h (b, tcp_act-Settled s.tcp_waiter s.tcp i a settled, stopped)
draining_Holds (udp_moves i a) s h (b, settled, stopped) =
    rw h (b, settled, udp_act-Stopped s.udp i a stopped)
draining_Holds sigterm s h d = rw (h, on_sigterm) d
draining_Holds tcp_waits s h (b, settled, stopped) =
    rw h (tcp_wait-Balanced s b, wait_next-Settled s.tcp_waiter s.tcp settled, stopped)
draining_Holds udp_waits s h (b, settled, stopped) = rw h (udp_wait-Balanced s b, settled, stopped)
draining_Holds server_shuts s h d = server_draining s.shutting s h refl d
draining_Holds main_waits s h d =
    subst (λ m. Holds (leave_wait m s.pending s).main (leave_wait m s.pending s)) (sym h)
      (leave_draining s.pending s h refl d)

at_stage-Holds :
    (m : MainStage) (e : Event) (s : Drain)
    → s.main ≡ m
    → Holds m s
    → Holds (at_stage m e s).main (at_stage m e s)
unfolding at_stage
at_stage-Holds serving e s h inv = serving_Holds e s h
at_stage-Holds draining e s h inv = draining_Holds e s h inv
at_stage-Holds exited e s h inv = rw h inv

pub happen-Holds :
    (es : List Event) (s : Drain) → Holds s.main s → Holds (happen es s).main (happen es s)
unfolding happen
happen-Holds [] s inv = inv
happen-Holds (e ∷ es) s inv =
    happen-Holds es (at_stage s.main e s) (at_stage-Holds s.main e s refl inv)

finished_when : (w : Waiter) → open_waiter w ≡ 0 → w ≡ finished
finished_when (waiting k) e = absurd (omega (arith, e))
finished_when finished e = refl

ended :
    (s : Drain)
    → Holds exited s
    → (s.tcp_waiter ≡ finished)
      × (s.udp_waiter ≡ finished)
      × (s.shutting ≡ 0)
      × Settled finished s.tcp
      × Stopped s.udp
ended s ((b, settled, stopped), empty) =
    let tcp_ended = finished_when s.tcp_waiter (omega (arith, b, empty)) in
    (
      tcp_ended,
      finished_when s.udp_waiter (omega (arith, b, empty)),
      omega (arith, b, empty),
      subst (λ w. Settled w s.tcp) tcp_ended settled,
      stopped,
    )

-- However the goroutines of the program and its signals interleave, when main has returned: every
-- proxy has been waited for and every server's Shutdown has answered, the listener of every proxy is
-- closed, and of the connections that a TCP proxy has accepted at most one has not ended.
pub exit_follows_connections :
    {Cb K : Type 0} (admin : Bool) (p : Program Cb K) (es : List Event)
    → (happen es (drain_of admin p)).main ≡ exited
    → let s = happen es (drain_of admin p) in
      (s.tcp_waiter ≡ finished)
      × (s.udp_waiter ≡ finished)
      × (s.shutting ≡ 0)
      × ((i : ℕ) (l : TcpWaits)
          → get_elem? s.tcp i ≡ some l
          → (l.is_closed ≡ true) × (left_over l ≤ 1))
      × ((i : ℕ) (l : UdpWaits) → get_elem? s.udp i ≡ some l → l.is_stopped ≡ true)
unfolding drain_of
exit_follows_connections admin p es h =
    let s = happen es (drain_of admin p) in
    let holds = subst (λ m. Holds m s) h (happen-Holds es (drain_of admin p) tt) in
    let (tcp_ended, udp_ended, none_shutting, settled, stopped) = ended s holds in
    (
      tcp_ended,
      udp_ended,
      none_shutting,
      (λ i l there. let (closed, few) = settled i l there in (closed, few tt)),
      stopped,
    )
