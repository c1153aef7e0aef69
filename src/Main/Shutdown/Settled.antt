-- ===== src/Main/Shutdown/Settled.antt =====
-- The shutdown of cmd/lb/main.go: what holds of the proxies that its goroutines have waited for, and
-- of main's wait group.
use mathlib.Core.Option.{some-injective}
use go_load_balancer.Prelude.{
  modify_entry, map_entry, none-length, ℕ, zero, suc, ◌≡◌, ◌+◌, ◌≤◌, ◌<◌, refl, ap, sym, ◌∙◌, true,
  Option, none, some, List, map, arith, get_elem?, modify, get_elem?-lt, get_elem?-map, length-map,
  ◌⊎◌, inl, inr,
}
use go_load_balancer.Tcp.Waits.{
  TcpWaits, TcpAct, RunStage, accepting, holding, returned, accepts, accept_fails, spawns,
  connection_ends, tcp_act, on_accept, on_spawn, close_listener,
}
use go_load_balancer.Main.Shutdown.{Waiter, waiting, finished, on_count, wait_next}

-- The connections of a proxy that have not ended, with the one that its accept loop holds.
abbrev pub held : RunStage → ℕ
held accepting = 0
held holding = 1
held returned = 0

abbrev pub left_over : TcpWaits → ℕ
left_over l = held l.run + l.active

held_le_one : (r : RunStage) → held r ≤ 1
held_le_one accepting = omega arith
held_le_one holding = omega arith
held_le_one returned = omega arith

-- With its listener closed a proxy takes no more of them.
accept_left : (r : RunStage) → held (on_accept true r) ≤ held r
unfolding on_accept
accept_left accepting = omega arith
accept_left holding = omega arith
accept_left returned = omega arith

spawn_left :
    (r : RunStage) (l : TcpWaits)
    → l.run ≡ r
    → ((on_spawn r l).is_closed ≡ l.is_closed) × (left_over (on_spawn r l) ≤ left_over l)
unfolding on_spawn
spawn_left accepting l e = (refl, omega arith)
spawn_left holding l e = (refl, rw e (omega arith))
spawn_left returned l e = (refl, omega arith)

act_left :
    (a : TcpAct) (l : TcpWaits)
    → l.is_closed ≡ true
    → ((tcp_act a l).is_closed ≡ true) × (left_over (tcp_act a l) ≤ left_over l)
unfolding tcp_act
act_left accepts l h = (h, rw h (omega (arith, accept_left l.run)))
act_left accept_fails l h = (h, omega arith)
act_left spawns l h = let (c, le) = spawn_left l.run l refl in (c ∙ h, le)
act_left connection_ends l h = (h, omega arith)

-- A proxy that a goroutine has waited for.
abbrev pub Passed : Waiter → ℕ → Type 0
Passed (waiting k) i = i < k
Passed finished i = Unit

-- A listener is closed, and once it is waited for at most one connection is left.
abbrev pub Settled : Waiter → List TcpWaits → Type 0
Settled w ls =
    (i : ℕ) (l : TcpWaits)
    → get_elem? ls i ≡ some l
    → (l.is_closed ≡ true) × (Passed w i → left_over l ≤ 1)

pub close_listener-Settled : (ls : List TcpWaits) → Settled (waiting 0) (map close_listener ls)
unfolding close_listener
close_listener-Settled ls i l h =
    let (m, there, e) = map_entry ls close_listener i l h in
    (ap (λ x. x.is_closed) e, λ passed. absurd (omega (arith, passed)))

pub tcp_act-Settled :
    (w : Waiter) (ls : List TcpWaits) (j : ℕ) (a : TcpAct)
    → Settled w ls
    → Settled w (modify ls j (tcp_act a))
tcp_act-Settled w ls j a inv i l h =
    let (m, there, e) = modify_entry ls j (tcp_act a) i l h in
    let (closed, few) = inv i m there in
    let (closed', le) = act_left a m closed in
    elim e [
      | inl same ↦ rw same (closed, few)
      | inr moved ↦ rw moved (closed', λ passed. omega (arith, le, few passed))
    ]

lt_suc : (i k : ℕ) → i < suc k → (i < k) ⊎ (i ≡ k)
lt_suc i k h = ground (arith, h)

idle_left :
    (ls : List TcpWaits) (k : ℕ) (l : TcpWaits)
    → get_elem? (map (λ l. l.active) ls) k ≡ some 0
    → get_elem? ls k ≡ some l
    → left_over l ≤ 1
idle_left ls k l e h =
    let none_counted = some-injective 0 l.active (sym e ∙ get_elem?-map (λ l. l.active) ls k h) in
    omega (arith, held_le_one l.run, none_counted)

-- The goroutine goes on from a proxy whose count is 0 and whose loop holds at most one connection.
on_count-Settled :
    (k : ℕ) (c : Option ℕ) (ls : List TcpWaits)
    → get_elem? (map (λ l. l.active) ls) k ≡ c
    → Settled (waiting k) ls
    → Settled (on_count c k) ls
unfolding on_count
on_count-Settled k none ls e inv = λ i l h.
    let (closed, few) = inv i l h in
    let bound = none-length (map (λ l. l.active) ls) k e in
    let shorter : i < k =
      omega (arith, get_elem?-lt ls i h, bound, length-map {A = TcpWaits} (λ l. l.active) ls) in
    (closed, λ _. few shorter)
on_count-Settled k (some zero) ls e inv = λ i l h.
    let (closed, few) = inv i l h in
    (
      closed,
      λ passed. elim (lt_suc i k passed) [
        | inl before ↦ few before
        | inr now ↦ idle_left ls i l (rw now e) h
      ],
    )
on_count-Settled k (some (suc n)) ls e inv = inv

pub wait_next-Settled :
    (w : Waiter) (ls : List TcpWaits)
    → Settled w ls
    → Settled (wait_next (map (λ l. l.active) ls) w) ls
unfolding wait_next
wait_next-Settled (waiting k) ls inv =
    on_count-Settled k (get_elem? (map (λ l. l.active) ls) k) ls refl inv
wait_next-Settled finished ls inv = inv
