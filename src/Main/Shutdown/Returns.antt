-- ===== src/Main/Shutdown/Returns.antt =====
-- The shutdown of cmd/lb/main.go: once nothing is left to wait for, main returns.
use go_load_balancer.Prelude.{
  ℕ, Bool, zero, suc, ◌≡◌, ◌+◌, ◌≤◌, refl, ap, ◌∙◌, subst, none, some, List, [], ◌∷◌, ◌++◌, arith,
  length, ◌⊎◌, inl, inr, length-map, get_elem?, All,
}
use go_load_balancer.Tcp.Waits.{TcpWaits}
use go_load_balancer.Udp.Waits.{wait_count}
use go_load_balancer.Main.{Program}
use go_load_balancer.Main.Shutdown.{
  Drain, Event, Waiter, waiting, finished, draining, exited, tcp_waits, udp_waits, server_shuts,
  main_waits, wait_next, on_count, tcp_counts, udp_counts, server_done, leave_wait, proceed,
  at_stage, happen, drain_of,
}
use go_load_balancer.Main.Shutdown.Exits.{Holds, happen-Holds}
use go_load_balancer.Main.Shutdown.Group.{
  open_waiter, Balanced, tcp_wait-Balanced, udp_wait-Balanced,
}

abbrev pub repeat : ℕ → Event → List Event
repeat zero e = []
repeat (suc n) e = e ∷ repeat n e

-- What is left to do of main's goroutines, in one order.
abbrev pub wind_up : Drain → List Event
wind_up s =
    repeat (suc (length s.tcp)) tcp_waits
    ++ (repeat (suc (length s.udp)) udp_waits
        ++ (repeat s.shutting server_shuts ++ main_waits ∷ []))

past_end : (counts : List ℕ) (k : ℕ) → length counts ≤ k → get_elem? counts k ≡ none
past_end [] k h = refl
past_end (n ∷ counts) zero h = absurd (omega (arith, h))
past_end (n ∷ counts) (suc k) h = past_end counts k (omega (arith, h))

zero_at :
    (counts : List ℕ) (k : ℕ)
    → All (λ n. n ≡ 0) counts
    → (get_elem? counts k ≡ none) ⊎ (get_elem? counts k ≡ some 0)
zero_at [] k z = inl refl
zero_at (n ∷ counts) zero z = inr (ap some z.0)
zero_at (n ∷ counts) (suc k) z = zero_at counts k z.1

-- `m` turns and one more end the goroutine.
abbrev Within : ℕ → List ℕ → Waiter → Type 0
Within m counts (waiting k) = length counts ≤ k + m
Within m counts finished = Unit

last_turn : (counts : List ℕ) (w : Waiter) → Within 0 counts w → wait_next counts w ≡ finished
unfolding wait_next on_count
last_turn counts (waiting k) h = rw (past_end counts k (omega (arith, h)), on_count) refl
last_turn counts finished h = refl

next_turn :
    (m : ℕ) (counts : List ℕ) (w : Waiter)
    → All (λ n. n ≡ 0) counts
    → Within (suc m) counts w
    → Within m counts (wait_next counts w)
unfolding wait_next on_count
next_turn m counts (waiting k) z h = elim (zero_at counts k z) [
  | inl e ↦ rw (e, on_count) tt
  | inr e ↦ rw (e, on_count) (omega (arith, h))
]
next_turn m counts finished z h = tt

module _ (s : Drain) where
  -- The state where main's goroutines stand so.
  abbrev stand : Waiter → Waiter → ℕ → Drain
  stand w u n = record s {
    main = draining;
    tcp_waiter = w;
    udp_waiter = u;
    shutting = n;
    pending = open_waiter w + open_waiter u + n;
  }

  stand_lem : s.main ≡ draining → Balanced s → s ≡ stand s.tcp_waiter s.udp_waiter s.shutting
  stand_lem m b =
      ap (λ x. record s { main = x }) m ∙ ap (λ p. record s { main = draining; pending = p }) b

  tcp_turn :
      (w u : Waiter) (n : ℕ)
      → proceed tcp_waits (stand w u n) ≡ stand (wait_next (tcp_counts s) w) u n
  unfolding proceed
  tcp_turn w u n =
      ap (λ p. record (stand (wait_next (tcp_counts s) w) u n) { pending = p })
        (tcp_wait-Balanced (stand w u n) refl)

  udp_turn :
      (w u : Waiter) (n : ℕ)
      → proceed udp_waits (stand w u n) ≡ stand w (wait_next (udp_counts s) u) n
  unfolding proceed
  udp_turn w u n =
      ap (λ p. record (stand w (wait_next (udp_counts s) u) n) { pending = p })
        (udp_wait-Balanced (stand w u n) refl)

  tcp_turns :
      (m n : ℕ) (w u : Waiter) (es : List Event)
      → All (λ n. n ≡ 0) (tcp_counts s)
      → Within m (tcp_counts s) w
      → happen (repeat (suc m) tcp_waits ++ es) (stand w u n) ≡ happen es (stand finished u n)
  unfolding happen at_stage
  tcp_turns zero n w u es z h =
      ap (happen es) (tcp_turn w u n ∙ ap (λ x. stand x u n) (last_turn (tcp_counts s) w h))
  tcp_turns (suc m) n w u es z h =
      ap (happen (repeat (suc m) tcp_waits ++ es)) (tcp_turn w u n)
      ∙ tcp_turns m n (wait_next (tcp_counts s) w) u es z (next_turn m (tcp_counts s) w z h)

  udp_turns :
      (m n : ℕ) (w u : Waiter) (es : List Event)
      → All (λ n. n ≡ 0) (udp_counts s)
      → Within m (udp_counts s) u
      → happen (repeat (suc m) udp_waits ++ es) (stand w u n) ≡ happen es (stand w finished n)
  unfolding happen at_stage
  udp_turns zero n w u es z h =
      ap (happen es) (udp_turn w u n ∙ ap (λ x. stand w x n) (last_turn (udp_counts s) u h))
  udp_turns (suc m) n w u es z h =
      ap (happen (repeat (suc m) udp_waits ++ es)) (udp_turn w u n)
      ∙ udp_turns m n w (wait_next (udp_counts s) u) es z (next_turn m (udp_counts s) u z h)

  server_turns :
      (n : ℕ) (es : List Event)
      → happen (repeat n server_shuts ++ es) (stand finished finished n)
        ≡ happen es (stand finished finished 0)
  unfolding happen at_stage proceed server_done
  server_turns zero es = refl
  server_turns (suc n) es =
      ap
        (λ p.
          happen (repeat n server_shuts ++ es) (record (stand finished finished n) { pending = p }))
        (omega arith)
      ∙ server_turns n es

  main_returns : (happen (main_waits ∷ []) (stand finished finished 0)).main ≡ exited
  unfolding happen at_stage proceed leave_wait
  main_returns = refl

any-Within : (counts : List ℕ) (n : ℕ) (w : Waiter) → length counts ≤ n → Within n counts w
any-Within counts n (waiting k) h = omega (arith, h)
any-Within counts n finished h = tt

-- However the goroutines of the program and its signals have interleaved, when main waits at its
-- shutdown and the wait group of every proxy has come to 0: main returns once the goroutines of main
-- have gone on and each server's Shutdown has answered.
pub idle_program_exits :
    {Cb K : Type 0} (admin : Bool) (p : Program Cb K) (es : List Event)
    → let s = happen es (drain_of admin p) in
      s.main ≡ draining
      → All (λ n. n ≡ 0) (tcp_counts s)
      → All (λ n. n ≡ 0) (udp_counts s)
      → (happen (wind_up s) s).main ≡ exited
unfolding drain_of
idle_program_exits admin p es m tcp_zero udp_zero =
    let s = happen es (drain_of admin p) in
    let (balanced, settled, stopped) =
      subst (λ x. Holds x s) m (happen-Holds es (drain_of admin p) tt) in
    let servers = repeat s.shutting server_shuts ++ main_waits ∷ [] in
    let rest = repeat (suc (length s.udp)) udp_waits ++ servers in
    let tcp_within =
      any-Within (tcp_counts s) (length s.tcp) s.tcp_waiter
        (omega (arith, length-map {A = TcpWaits} (λ l. l.active) s.tcp)) in
    let udp_within =
      any-Within (udp_counts s) (length s.udp) s.udp_waiter
        (omega (arith, length-map wait_count s.udp)) in
    ap (λ t. t.main)
      (ap (happen (wind_up s)) (stand_lem s m balanced)
        ∙ tcp_turns s (length s.tcp) s.shutting s.tcp_waiter s.udp_waiter rest tcp_zero tcp_within
        ∙ udp_turns s (length s.udp) s.shutting finished s.udp_waiter servers udp_zero udp_within
        ∙ server_turns s s.shutting (main_waits ∷ []))
    ∙ main_returns s
