-- ===== src/Main/Shutdown/Blocks.antt =====
-- The shutdown of cmd/lb/main.go: a connection that stays open keeps main from returning.
use go_load_balancer.Prelude.{
  none-length, ℕ, zero, suc, ◌≡◌, ◌+◌, ◌-◌, ◌≤◌, ◌<◌, refl, ap, sym, ◌∙◌, subst, Option, none, some,
  List, [], ◌∷◌, map, arith, get_elem?, modify, inl, inr, ◌==◌, if◌then◌else◌, get_elem?-map,
  get_elem?-lt, get_elem?-modify_self, get_elem?-modify_ne, Bool-cases, ==_iff,
}
use go_load_balancer.Tcp.Waits.{
  TcpWaits, TcpAct, RunStage, accepting, holding, returned, accepts, accept_fails, spawns,
  connection_ends, tcp_act, on_spawn, close_listener,
}
use go_load_balancer.Main.Shutdown.{
  Drain, Event, Waiter, waiting, finished, serving, draining, tcp_moves, udp_moves, sigterm,
  tcp_waits, udp_waits, server_shuts, main_waits, wait_next, on_count, shut_down, on_sigterm,
  server_done, leave_wait, proceed, at_stage, happen,
}
use go_load_balancer.Main.Shutdown.Group.{
  open_waiter, Balanced, tcp_wait-Balanced, udp_wait-Balanced,
}

-- The connections of a proxy that end in a sequence of events.
abbrev is_end : TcpAct → ℕ
is_end accepts = 0
is_end accept_fails = 0
is_end spawns = 0
is_end connection_ends = 1

abbrev ends_at : ℕ → Event → ℕ
ends_at i (tcp_moves j a) = if i == j then is_end a else 0
ends_at i _ = 0

abbrev pub ends_of : ℕ → List Event → ℕ
ends_of i [] = 0
ends_of i (e ∷ es) = ends_at i e + ends_of i es

spawn_active : (r : RunStage) (l : TcpWaits) → l.active ≤ (on_spawn r l).active
unfolding on_spawn
spawn_active accepting l = omega arith
spawn_active holding l = omega arith
spawn_active returned l = omega arith

act_active : (a : TcpAct) (l : TcpWaits) → l.active ≤ (tcp_act a l).active + is_end a
unfolding tcp_act
act_active accepts l = omega arith
act_active accept_fails l = omega arith
act_active spawns l = omega (arith, spawn_active l.run l)
act_active connection_ends l = omega arith

-- The goroutine that waits for the TCP proxies has not passed a position.
abbrev Before : ℕ → Waiter → Type 0
Before i (waiting k) = k ≤ i
Before i finished = ⊥

-- More than `n` connections of the proxy of a position are open, and it has not been waited for.
abbrev Blocked : ℕ → ℕ → Drain → Type 0
Blocked i n s =
    (s.main ≡ draining)
    × Balanced s
    × Before i s.tcp_waiter
    × ((l : TcpWaits) × (get_elem? s.tcp i ≡ some l) × (n < l.active))

waiter_stays :
    (i k n : ℕ) (c : Option ℕ) (counts : List ℕ)
    → get_elem? counts k ≡ c
    → get_elem? counts i ≡ some (suc n)
    → k ≤ i
    → Before i (on_count c k)
unfolding on_count
waiter_stays i k n none counts e h le =
    absurd (omega (arith, none-length counts k e, get_elem?-lt counts i h, le))
waiter_stays i k n (some zero) counts e h le = elim (Bool-cases (i == k)) [
  | inl same ↦
      let here : get_elem? counts i ≡ some 0 = ap (get_elem? counts) ((==_iff i k).0 same) ∙ e in
      absurd (ground (arith, h, here))
  | inr other ↦ ground (arith, other, le)
]
waiter_stays i k n (some (suc m)) counts e h le = le

moved :
    (i j n : ℕ) (a : TcpAct) (ls : List TcpWaits) (l : TcpWaits)
    → get_elem? ls i ≡ some l
    → ends_at i (tcp_moves j a) + n < l.active
    → (m : TcpWaits) × (get_elem? (modify ls j (tcp_act a)) i ≡ some m) × (n < m.active)
moved i j n a ls l h le = elim (Bool-cases (i == j)) [
  | inl same ↦ (
    tcp_act a l,
    subst (λ k. get_elem? (modify ls k (tcp_act a)) i ≡ some (tcp_act a l)) ((==_iff i j).0 same)
        (get_elem?-modify_self ls i (tcp_act a) h),
    ground (arith, same, le, act_active a l),
  )
  | inr other ↦ (
    l,
    get_elem?-modify_ne ls j i (tcp_act a) (λ e. ground (arith, other, e)) ∙ h,
    ground (arith, le),
  )
]

wait_next-Before :
    (i n : ℕ) (w : Waiter) (ls : List TcpWaits) (l : TcpWaits)
    → get_elem? ls i ≡ some l
    → n < l.active
    → Before i w
    → Before i (wait_next (map (λ l. l.active) ls) w)
unfolding wait_next
wait_next-Before i n (waiting k) ls l there open_ le =
    let counts = map (λ (l : TcpWaits). l.active) ls in
    waiter_stays i k (l.active - 1) (get_elem? counts k) counts refl
      (get_elem?-map (λ l. l.active) ls i there ∙ ap some (omega (arith, open_))) le
wait_next-Before i n finished ls l there open_ before = absurd before

server_done-Blocked :
    (i n k : ℕ) (s : Drain) → s.shutting ≡ k → Blocked i n s → Blocked i n (server_done k s)
unfolding server_done
server_done-Blocked i n zero s e inv = inv
server_done-Blocked i n (suc k) s e (m, b, before, rest) = (m, omega (arith, e, b), before, rest)

unfinished : (i : ℕ) (w : Waiter) → Before i w → open_waiter w ≡ 1
unfinished i (waiting k) before = refl
unfinished i finished before = absurd before

some_pending : (i : ℕ) (s : Drain) → Balanced s → Before i s.tcp_waiter → 0 < s.pending
some_pending i s b before = omega (arith, b, unfinished i s.tcp_waiter before)

leave_wait-Blocked :
    (i n k : ℕ) (s : Drain) → s.pending ≡ k → Blocked i n s → Blocked i n (leave_wait draining k s)
unfolding leave_wait
leave_wait-Blocked i n zero s e (m, b, before, rest) =
    absurd (omega (arith, e, some_pending i s b before))
leave_wait-Blocked i n (suc k) s e inv = inv

of_zero : (i n : ℕ) (s : Drain) → Blocked i (0 + n) s → Blocked i n s
of_zero i n s inv = subst (λ k. Blocked i k s) (omega arith) inv

stays_Blocked :
    (i n : ℕ) (e : Event) (s : Drain) → Blocked i (ends_at i e + n) s → Blocked i n (proceed e s)
unfolding proceed on_sigterm
stays_Blocked i n (tcp_moves j a) s (m, b, before, (l, there, open_)) =
    (m, b, before, moved i j n a s.tcp l there open_)
stays_Blocked i n (udp_moves j a) s inv = of_zero i n s inv
stays_Blocked i n sigterm s inv =
    subst (λ m. Blocked i n (on_sigterm m s)) (sym inv.0) (of_zero i n s inv)
stays_Blocked i n tcp_waits s inv =
    let (m, b, before, (l, there, open_)) = of_zero i n s inv in
    (
      m,
      tcp_wait-Balanced s b,
      wait_next-Before i n s.tcp_waiter s.tcp l there open_ before,
      (l, there, open_),
    )
stays_Blocked i n udp_waits s inv =
    let (m, b, before, rest) = of_zero i n s inv in (m, udp_wait-Balanced s b, before, rest)
stays_Blocked i n server_shuts s inv = server_done-Blocked i n s.shutting s refl (of_zero i n s inv)
stays_Blocked i n main_waits s inv =
    subst (λ m. Blocked i n (leave_wait m s.pending s)) (sym inv.0)
      (leave_wait-Blocked i n s.pending s refl (of_zero i n s inv))

stay_Blocked :
    (i n : ℕ) (es : List Event) (s : Drain)
    → Blocked i (ends_of i es + n) s
    → Blocked i n (happen es s)
unfolding happen at_stage
stay_Blocked i n [] s inv = of_zero i n s inv
stay_Blocked i n (e ∷ es) s inv =
    let inv' : Blocked i (ends_at i e + (ends_of i es + n)) s =
      subst (λ k. Blocked i k s) (omega arith) inv in
    stay_Blocked i n es (at_stage s.main e s) (
      subst (λ m. Blocked i (ends_of i es + n) (at_stage m e s)) (sym inv.0)
        (stays_Blocked i (ends_of i es + n) e s inv'))

-- While a connection of a TCP proxy that was open when the program was asked to end stays open, main
-- does not return, whatever else happens and however long it takes: if fewer of the proxy's
-- connections end than were open, main is still waiting.
pub open_connection_keeps_main :
    (s : Drain) (i : ℕ) (l : TcpWaits) (es : List Event)
    → s.main ≡ serving
    → get_elem? s.tcp i ≡ some l
    → ends_of i es < l.active
    → (happen (sigterm ∷ es) s).main ≡ draining
unfolding happen at_stage proceed on_sigterm shut_down close_listener
open_connection_keeps_main s i l es h there open_ =
    let inv : Blocked i (ends_of i es + 0) (shut_down s) = (
      refl,
      refl,
      omega arith,
      (close_listener l, get_elem?-map close_listener s.tcp i there, omega (arith, open_)),
    ) in
    subst (λ m. (happen es (at_stage m sigterm s)).main ≡ draining) (sym h)
      (subst (λ m. (happen es (on_sigterm m s)).main ≡ draining) (sym h)
        (stay_Blocked i 0 es (shut_down s) inv).0)
