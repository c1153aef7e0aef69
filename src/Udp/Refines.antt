-- ===== src/Udp/Refines.antt =====
-- A packet of a new client and its flow, in internal/lb/udp_proxy.go, as an implementation of
-- `Flight`, with every flow counted.
use mathlib.Core.List.{Nodup}
use go_load_balancer.Prelude.{
  ℕ, ◌≡◌, sym, true, false, Bool, Option, none, some, List, get_elem?, Option-cases, inl, inr,
}
use go_load_balancer.Text.{Str}
use go_load_balancer.Extern.{Env, FloatOps}
use go_load_balancer.Backend.{Backend}
use go_load_balancer.Http.{GoCache}
use go_load_balancer.Flight.{
  Pc, arrived, chosen, counted, done, skips, enters, gives_up, leaves, Steps, here, next, move,
}
use go_load_balancer.Tcp.{with_backend, pool_breaker, tcp_begin}
use go_load_balancer.Tcp.Refines.{tcp_pc, tcp_begin_refines, settle_refines}
use go_load_balancer.Udp.{
  UdpFlow, UdpProxy, release, listener_end, new_session, on_session, handle_udp_packet, open_flow,
  udp_settle, proxy_udp, forward,
}
use go_load_balancer.Udp.Release.{addresses, find_backend_lem}

-- Where the request of a packet stands after the dial.
abbrev pub dialled_pc : ℕ → Option Str → Pc
dialled_pc i none = done
dialled_pc i (some remote) = counted i

module _ {Cb K : Type 0} (sessions : GoCache ℕ K) (env : Env Cb) (f : FloatOps) (fs : List Pc)
    (k : ℕ) where
  -- A packet, up to the call of proxyUdp, goes by steps of the protocol from its arrival to its choice,
  -- or to its end: with a session, whatever that is, it takes no backend.
  pub handle_udp_packet_refines :
      (t : ℕ) (client packet : Str) (p : UdpProxy Cb K)
      → get_elem? fs k ≡ some arrived
      → let (p', stage) = handle_udp_packet sessions env f t client packet p in
        Steps env f true
          (record { pool = p.pool; flights = fs })
          (record { pool = p'.pool; flights = move fs k (tcp_pc stage) })
  unfolding handle_udp_packet on_session new_session forward tcp_begin
  handle_udp_packet_refines t client packet p h =
      elim (Option-cases (sessions.get t client p.sessions)) [
        | inl miss ↦ rw miss (tcp_begin_refines env f fs k client p.pool h)
        | inr (j, hit) ↦ rw hit (next here (skips k h))
      ]

  -- From its choice it goes to being counted there, if the backend is dialled, whether or not its
  -- packet is written, and else to its end.
  pub proxy_udp_refines :
      (remote : Option Str) (writes : Bool) (t : ℕ) (client packet : Str) (i : ℕ)
      (p : UdpProxy Cb K)
      → get_elem? fs k ≡ some (chosen i)
      → Steps env f true
          (record { pool = p.pool; flights = fs })
          (record {
            pool = (proxy_udp sessions env f remote writes t client packet i p).pool;
            flights = move fs k (dialled_pc i remote);
          })
  unfolding proxy_udp udp_settle open_flow with_backend
  proxy_udp_refines none writes t client packet i p h =
      settle_refines env f fs false i (pool_breaker i p.pool) p.pool p.pool (move fs k done)
        (next here (gives_up k i h))
  proxy_udp_refines (some remote) writes t client packet i p h =
      settle_refines env f fs writes i _ p.pool _ (move fs k (counted i)) (next here (enters k i h))

  -- The end of the goroutine of a flow that is counted at a backend: if the far end has the address of
  -- that backend, and the addresses of the pool are distinct, it goes to its end.
  pub listener_end_refines :
      (i j : ℕ) (b : Backend Cb) (flow : UdpFlow) (p : UdpProxy Cb K)
      → Nodup (addresses p.pool.backends)
      → get_elem? p.pool.backends i ≡ some b
      → get_elem? p.flows j ≡ some flow
      → flow.remote_addr ≡ b.addr
      → get_elem? fs k ≡ some (counted i)
      → Steps env f true
          (record { pool = p.pool; flights = fs })
          (record { pool = (listener_end sessions j p).pool; flights = move fs k done })
  unfolding listener_end release with_backend
  listener_end_refines i j b flow p distinct backend there same h =
      let found =
        find_backend_lem flow.remote_addr p.pool.backends i b distinct backend (sym same) in
      rw (there, listener_end, found) (next here (leaves k i h))

-- The parts of a packet of a client and of its flow: the packet, the dial of its backend with the far
-- end's address and whether the packet is written, and the end of the goroutine of a flow.
pub data UdpEvent : Type 0 where
  begins : ℕ → Str → Str → UdpEvent
  dials : Option Str → Bool → ℕ → Str → Str → ℕ → UdpEvent
  ends : ℕ → ℕ → UdpEvent

-- Where it stands before a part.
abbrev pub before_event : UdpEvent → Pc
before_event (begins t client packet) = arrived
before_event (dials remote writes t client packet i) = chosen i
before_event (ends i j) = counted i

-- A flow that ends is one of the proxy, and its far end has the address of its backend.
abbrev pub IsMatched : {Cb K : Type 0} → UdpEvent → UdpProxy Cb K → Type 0
IsMatched {Cb = Cb} (ends i j) p =
    (b : Backend Cb) × (flow : UdpFlow) × (get_elem? p.pool.backends i ≡ some b)
    × (get_elem? p.flows j ≡ some flow)
    × (flow.remote_addr ≡ b.addr)
IsMatched (begins t client packet) p = Unit
IsMatched (dials remote writes t client packet i) p = Unit

module _ {Cb K : Type 0} (sessions : GoCache ℕ K) (env : Env Cb) (f : FloatOps) where
  -- What a part leaves, and where it stands then.
  unfoldable pub udp_event : UdpEvent → UdpProxy Cb K → UdpProxy Cb K × Pc
  udp_event (begins t client packet) p =
      let (p', stage) = handle_udp_packet sessions env f t client packet p in (p', tcp_pc stage)
  udp_event (dials remote writes t client packet i) p =
      (proxy_udp sessions env f remote writes t client packet i p, dialled_pc i remote)
  udp_event (ends i j) p = (listener_end sessions j p, done)

  -- Each part of a packet of a client and of its flow implements the protocol, in a pool whose
  -- addresses are distinct, if a flow that ends is one whose far end has the address of its backend:
  -- by the steps of the protocol it goes from where it stands to where the part leaves it, while all
  -- others stay where they are, and the pool is the one that the part leaves.
  pub udp_event_refines :
      (e : UdpEvent) (p : UdpProxy Cb K) (fs : List Pc) (k : ℕ)
      → Nodup (addresses p.pool.backends)
      → IsMatched e p
      → get_elem? fs k ≡ some (before_event e)
      → let (p', pc) = udp_event e p in
        Steps env f true
          (record { pool = p.pool; flights = fs })
          (record { pool = p'.pool; flights = move fs k pc })
  unfolding udp_event
  udp_event_refines (begins t client packet) p fs k distinct matched h =
      handle_udp_packet_refines sessions env f fs k t client packet p h
  udp_event_refines (dials remote writes t client packet i) p fs k distinct matched h =
      proxy_udp_refines sessions env f fs k remote writes t client packet i p h
  udp_event_refines (ends i j) p fs k distinct (b, flow, backend, there, same) h =
      listener_end_refines sessions env f fs k i j b flow p distinct backend there same h
