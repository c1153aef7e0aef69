-- ===== src/Udp/Runs.antt =====
-- The packets of new clients of a UDP listener of internal/lb/udp_proxy.go and their flows, any number
-- of them and in any interleaving, with the health checks of their pool.
use mathlib.Core.List.{Nodup}
use mathlib.Core.Option.{some-injective}
use go_load_balancer.Prelude.{
  ℕ, zero, suc, ◌≡◌, ◌%◌, ◌^◌, refl, ap, sym, subst, ◌∙◌, Bool, true, false, Option, none, some,
  List, [], ◌∷◌, map, modify, get_elem?, All, if◌then◌else◌, Bool-cases, inl, inr,
}
use go_load_balancer.Text.{Str, eqs, eqs_iff}
use go_load_balancer.Extern.{Env, FloatOps}
use go_load_balancer.Backend.{Backend, BackendPool, increment_connections, decrement_connections}
use go_load_balancer.Strategy.{get_next_backend}
use go_load_balancer.Pool.Health.{run_health_checks-addresses}
use go_load_balancer.Strategy.Choice.{get_next_backend-IsSound}
use go_load_balancer.Strategy.Weighted.Tracks.{forget}
use go_load_balancer.Flight.{
  Pc, State, Step, arrives, chooses, finds_none, skips, enters, gives_up, leaves, trips, checks,
  Steps, here, next, move, entered, left,
}
use go_load_balancer.Flight.Inside.{inside}
use go_load_balancer.Flight.Counts.{counters}
use go_load_balancer.Flight.Runs.{Move, Parts, IsFlight, make_moves, moves_are_counted}
use go_load_balancer.Http.{GoCache}
use go_load_balancer.Udp.{UdpFlow, UdpProxy}
use go_load_balancer.Udp.Release.{addresses}
use go_load_balancer.Udp.Refines.{
  UdpEvent, begins, dials, ends, before_event, udp_event, udp_event_refines, IsMatched,
}

module _ {Cb : Type 0} where
  -- No step of the protocol changes an address.
  addresses_kept :
      (g : Backend Cb → Backend Cb)
      → ((b : Backend Cb) → (g b).addr ≡ b.addr)
      → (bs : List (Backend Cb)) (i : ℕ) → addresses (modify bs i g) ≡ addresses bs
  addresses_kept g h [] i = refl
  addresses_kept g h (b ∷ bs) zero = ap (λ a. a ∷ addresses bs) (h b)
  addresses_kept g h (b ∷ bs) (suc i) = ap (λ addrs. b.addr ∷ addrs) (addresses_kept g h bs i)

  forget-addresses : (bs : List (Backend Cb)) → addresses (map forget bs) ≡ addresses bs
  unfolding forget
  forget-addresses [] = refl
  forget-addresses (b ∷ bs) = ap (λ addrs. b.addr ∷ addrs) (forget-addresses bs)

  next_addresses :
      (env : Env Cb) (f : FloatOps) (ip : Str) (p : BackendPool Cb)
      → addresses (get_next_backend env f ip p).0.backends ≡ addresses p.backends
  next_addresses env f ip p =
      let (_, same, _) = get_next_backend-IsSound env f ip p in
      sym (forget-addresses (get_next_backend env f ip p).0.backends)
      ∙ ap addresses same
      ∙ forget-addresses p.backends

  entered-addresses :
      (counts : Bool) (i : ℕ) (p : BackendPool Cb)
      → addresses (entered counts i p).backends ≡ addresses p.backends
  unfolding increment_connections
  entered-addresses true i p = addresses_kept increment_connections (λ b. refl) p.backends i
  entered-addresses false i p = refl

  left-addresses :
      (counts : Bool) (i : ℕ) (p : BackendPool Cb)
      → addresses (left counts i p).backends ≡ addresses p.backends
  unfolding decrement_connections
  left-addresses true i p = addresses_kept decrement_connections (λ b. refl) p.backends i
  left-addresses false i p = refl

  Step-addresses :
      {env : Env Cb} {f : FloatOps} {counts : Bool} {s t : State Cb}
      → Step env f counts s t
      → addresses t.pool.backends ≡ addresses s.pool.backends
  Step-addresses arrives = refl
  Step-addresses {env = env} {f = f} {s = s} (chooses k i ip there found) =
      next_addresses env f ip s.pool
  Step-addresses {env = env} {f = f} {s = s} (finds_none k ip there missed) =
      next_addresses env f ip s.pool
  Step-addresses (skips k there) = refl
  Step-addresses {counts = counts} {s = s} (enters k i there) = entered-addresses counts i s.pool
  Step-addresses (gives_up k i there) = refl
  Step-addresses {counts = counts} {s = s} (leaves k i there) = left-addresses counts i s.pool
  Step-addresses {s = s} (trips i c) =
      addresses_kept (λ b. record b { cb = c }) (λ b. refl) s.pool.backends i
  Step-addresses {env = env} {s = s} (checks answers) =
      run_health_checks-addresses env answers s.pool

  Steps-addresses :
      {env : Env Cb} {f : FloatOps} {counts : Bool} {s t : State Cb}
      → Steps env f counts s t
      → addresses t.pool.backends ≡ addresses s.pool.backends
  Steps-addresses here = refl
  Steps-addresses (next steps step) = Step-addresses step ∙ Steps-addresses steps

module _ {Cb : Type 0} where
  -- Whether a flow has the address of the backend of a position at its far end.
  unfoldable pub far_end_is : Option (Backend Cb) → Option UdpFlow → Bool
  far_end_is none flow = false
  far_end_is (some b) none = false
  far_end_is (some b) (some flow) = eqs flow.remote_addr b.addr

  far_end_lem :
      (b : Option (Backend Cb)) (flow : Option UdpFlow)
      → far_end_is b flow ≡ true
      → (c : Backend Cb) × (u : UdpFlow) × (b ≡ some c) × (flow ≡ some u) × (u.remote_addr ≡ c.addr)
  unfolding far_end_is
  far_end_lem none flow h = absurd (cc h)
  far_end_lem (some b) none h = absurd (cc h)
  far_end_lem (some b) (some flow) h = (b, flow, refl, refl, (eqs_iff flow.remote_addr b.addr).0 h)

module _ {Cb K : Type 0} where
  unfoldable pub is_matched : UdpEvent → UdpProxy Cb K → Bool
  is_matched (begins t client packet) p = true
  is_matched (dials remote writes t client packet i) p = true
  is_matched (ends i j) p = far_end_is (get_elem? p.pool.backends i) (get_elem? p.flows j)

  is_matched-IsMatched : (e : UdpEvent) (p : UdpProxy Cb K) → is_matched e p ≡ true → IsMatched e p
  unfolding is_matched
  is_matched-IsMatched (begins t client packet) p h = tt
  is_matched-IsMatched (dials remote writes t client packet i) p h = tt
  is_matched-IsMatched (ends i j) p h =
      far_end_lem (get_elem? p.pool.backends i) (get_elem? p.flows j) h

move_same : (fs : List Pc) (k : ℕ) (pc : Pc) → get_elem? fs k ≡ some pc → move fs k pc ≡ fs
move_same [] k pc h = refl
move_same (x ∷ fs) zero pc h = ap (λ y. y ∷ fs) (sym (some-injective x pc h))
move_same (x ∷ fs) (suc k) pc h = ap (λ gs. x ∷ gs) (move_same fs k pc h)

module _ {Cb K : Type 0} (sessions : GoCache ℕ K) (env : Env Cb) (f : FloatOps) where
  -- A part, where a flow only ends at the backend that its far end has the address of.
  unfoldable pub matched_part : UdpEvent → UdpProxy Cb K → UdpProxy Cb K × Pc
  matched_part e p = if is_matched e p then udp_event sessions env f e p else (p, before_event e)

  abbrev pub udp_parts : Parts Cb (UdpProxy Cb K) UdpEvent
  udp_parts = record {
    pool_of = λ p. p.pool;
    with_pool = λ pool p. record p { pool = pool };
    before = before_event;
    part = matched_part;
  }

  abbrev Distinct : UdpProxy Cb K → Type 0
  Distinct p = Nodup (addresses p.pool.backends)

  matched_part_refines :
      (e : UdpEvent) (p : UdpProxy Cb K) (fs : List Pc) (k : ℕ)
      → Distinct p
      → get_elem? fs k ≡ some (before_event e)
      → Steps env f true
          (record { pool = p.pool; flights = fs })
          (record { pool = (matched_part e p).0.pool; flights = move fs k (matched_part e p).1 })
  unfolding matched_part
  matched_part_refines e p fs k distinct h = elim (Bool-cases (is_matched e p)) [
    | inl same ↦
        rw same
          (udp_event_refines sessions env f e p fs k distinct (is_matched-IsMatched e p same) h)
    | inr other ↦ rw (other, move_same fs k (before_event e) h) here
  ]

  udp_parts-IsFlight : IsFlight env f udp_parts true Distinct
  udp_parts-IsFlight = record {
    pool_of_with = λ pool p. refl;
    checks_keep = λ answers p distinct.
        subst Nodup (sym (run_health_checks-addresses env answers p.pool)) distinct;
    part_keeps = λ e p distinct.
        subst Nodup
          (sym (Steps-addresses (matched_part_refines e p (before_event e ∷ []) 0 distinct refl)))
          distinct;
    refines = matched_part_refines;
  }

  -- From a proxy whose backends have distinct addresses and counters that are all 0, after any moves
  -- of any number of packets and of the flows that they open, of which each runs its parts in their
  -- order and a flow ends where its far end has the address of its backend, and of health checks: the
  -- counter of a backend is the number of the flows that have been opened to it and have not ended,
  -- modulo 2^64, whatever the strategy.
  pub udp_flows_are_counted :
      (p : UdpProxy Cb K) (ms : List (Move UdpEvent))
      → Nodup (addresses p.pool.backends)
      → All (λ b. b.connections ≡ 0) p.pool.backends
      → let s = make_moves env f udp_parts ms (record { held = p; flights = [] }) in
        (i n : ℕ) → get_elem? (counters s.held.pool) i ≡ some n → n ≡ inside i s.flights % 2 ^ 64
  udp_flows_are_counted p ms distinct idle i n h =
      moves_are_counted env f udp_parts true Distinct udp_parts-IsFlight p ms distinct idle i n h
