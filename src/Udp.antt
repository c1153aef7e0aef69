-- ===== src/Udp.antt =====
-- internal/lb/udp_proxy.go: a UDP listener's proxy, its sessions, and the goroutines that carry the
-- answers of the backends. The session cache is a parameter. A handler is two steps, before and after
-- the dial of the backend; a turn of a loop is one.
pub mod Loop
pub mod Waits
pub mod Sessions
pub mod Refines
pub mod Runs
pub mod Release
pub mod Race
mod Examples
use go_load_balancer.Prelude.{
  ℕ, suc, ◌+◌, Bool, true, false, not, ◌&&◌, Option, none, some, List, [], ◌∷◌, ◌++◌, if◌then◌else◌,
  length, get_elem?, modify,
}
use go_load_balancer.Text.{Str, eqs}
use go_load_balancer.Config.{ListenerConfig}
use go_load_balancer.Extern.{Env, FloatOps}
use go_load_balancer.Backend.{Backend, BackendPool, increment_connections, decrement_connections}
use go_load_balancer.Strategy.{get_next_backend}
use go_load_balancer.Balancer.{LoadBalancer}
use go_load_balancer.Http.{GoCache}
use go_load_balancer.Tcp.{
  lookup_pool, TcpStage, over, with_backend, pool_breaker, tcp_chosen, tcp_settle,
}

-- UDPFlow: the client's address, the address of the far end of its connection to a backend, whether
-- that connection is open, and the packets that its Write has been given while it was.
pub record UdpFlow : Type 0 where
  pub client_addr : Str
  pub remote_addr : Str
  pub is_open : Bool
  pub sent : List Str

-- UDPProxy. A *UDPFlow is a position in `flows`; `answers` is what its listener is given to write.
pub record UdpProxy (Cb K : Type 0) : Type 0 where
  pub pool : BackendPool Cb
  pub listener_name : Str
  pub sessions : K
  pub stopped : Bool
  pub flows : List UdpFlow
  pub answers : List (Str × Str)

unfoldable pub write_flow : Str → UdpFlow → UdpFlow
write_flow packet flow =
    if flow.is_open then record flow { sent = flow.sent ++ packet ∷ [] } else flow

unfoldable pub close_flow : UdpFlow → UdpFlow
close_flow flow = record flow { is_open = false }

-- The backend that listenForBackend finds, from position `i` on.
unfoldable pub find_backend : {Cb : Type 0} → Str → ℕ → List (Backend Cb) → Option ℕ
find_backend remote i [] = none
find_backend remote i (b ∷ bs) =
    let rest = find_backend remote (suc i) bs in if eqs b.addr remote then some i else rest

-- The deferred DecrementConnections.
unfoldable pub release : {Cb : Type 0} → Option ℕ → BackendPool Cb → BackendPool Cb
release none p = p
release (some i) p = with_backend i decrement_connections p

unfoldable pub is_found : Option ℕ → Bool
is_found none = false
is_found (some i) = true

-- What a turn of listenForBackend meets: no deadline can be set, the read times out or fails, or the
-- backend has sent a packet.
pub data Read : Type 0 where
  no_deadline timed_out read_failed : Read
  received : Str → Read

module _ {Cb K : Type 0} (sessions : GoCache ℕ K) where
  -- NewUDPProxy, with the cache that cache.New makes.
  unfoldable pub on_udp_pool : Bool → K → Str → Option (BackendPool Cb) → Option (UdpProxy Cb K)
  on_udp_pool listens k name none = none
  on_udp_pool listens k name (some p) =
      if listens
      then some (record {
        pool = p;
        listener_name = name;
        sessions = k;
        stopped = false;
        flows = [];
        answers = [];
      })
      else none

  unfoldable pub new_udp_proxy :
      (Str → Bool) → (Str → Bool) → K → ListenerConfig → LoadBalancer Cb → Option (UdpProxy Cb K)
  unfolding on_udp_pool
  new_udp_proxy resolves listens k l lb =
      on_udp_pool (resolves l.listen_addr && listens l.listen_addr) k l.name
        (lookup_pool l.name lb.l4_pools)

  -- The function that OnEvicted is given.
  unfoldable pub on_evicted : ℕ → UdpProxy Cb K → UdpProxy Cb K
  on_evicted j p = record p { flows = modify p.flows j close_flow }

  unfoldable pub udp_shutdown : UdpProxy Cb K → UdpProxy Cb K
  udp_shutdown p = record p { stopped = true; sessions = sessions.flush p.sessions }

  -- A packet of a session.
  unfoldable pub forward : ℕ → Str → Str → ℕ → UdpProxy Cb K → UdpProxy Cb K
  forward t client packet j p = record p {
    flows = modify p.flows j (write_flow packet);
    sessions = sessions.set t client j p.sessions;
  }

  -- listenForBackend once its loop has ended.
  unfoldable pub listener_end : ℕ → UdpProxy Cb K → UdpProxy Cb K
  listener_end j p = elim (get_elem? p.flows j) [
    | none ↦ p
    | some flow ↦ record p {
      pool = release (find_backend flow.remote_addr 0 p.pool.backends) p.pool;
      flows = modify p.flows j close_flow;
    }
  ]

  -- A turn of its loop, and whether the loop ends.
  unfoldable pub listener_turn : ℕ → Read → UdpFlow → UdpProxy Cb K → UdpProxy Cb K × Bool
  listener_turn t no_deadline flow p = (p, true)
  listener_turn t timed_out flow p =
      (p, not (is_found (sessions.get t flow.client_addr p.sessions)))
  listener_turn t read_failed flow p = (p, true)
  listener_turn t (received packet) flow p =
      (record p { answers = p.answers ++ (flow.client_addr, packet) ∷ [] }, false)

  -- A turn of the goroutine of a flow.
  unfoldable pub listen_for_backend : ℕ → Read → ℕ → UdpProxy Cb K → UdpProxy Cb K
  listen_for_backend t read j p = elim (get_elem? p.flows j) [
    | none ↦ p
    | some flow ↦
        let (p', ends) = listener_turn t read flow p in if ends then listener_end j p' else p'
  ]

  -- The new flow: it is cached, counted, and gets the first packet.
  unfoldable pub open_flow : ℕ → Str → Str → Str → ℕ → UdpProxy Cb K → UdpProxy Cb K
  open_flow t client packet remote i p = record p {
    pool = with_backend i increment_connections p.pool;
    sessions = sessions.set t client (length p.flows) p.sessions;
    flows =
        p.flows
        ++ write_flow packet
            (record { client_addr = client; remote_addr = remote; is_open = true; sent = [] })
          ∷ [];
  }

  module _ (env : Env Cb) (f : FloatOps) where
    -- handleUDPPacket without a session, up to the call of proxyUdp. The client's address has its
    -- port.
    unfoldable pub new_session : Str → UdpProxy Cb K → UdpProxy Cb K × TcpStage
    new_session client p =
        let (pool, chosen) = get_next_backend env f client p.pool in
        let (pool', stage) = tcp_chosen env f chosen pool in (record p { pool = pool' }, stage)

    unfoldable pub on_session : ℕ → Str → Str → Option ℕ → UdpProxy Cb K → UdpProxy Cb K × TcpStage
    on_session t client packet none p = new_session client p
    on_session t client packet (some j) p = (forward t client packet j p, over)

    -- handleUDPPacket up to the call of proxyUdp.
    unfoldable pub handle_udp_packet : ℕ → Str → Str → UdpProxy Cb K → UdpProxy Cb K × TcpStage
    handle_udp_packet t client packet p =
        on_session t client packet (sessions.get t client p.sessions) p

    -- Execute after the call.
    unfoldable pub udp_settle : Bool → ℕ → UdpProxy Cb K → UdpProxy Cb K
    udp_settle success i p = record p {
      pool = tcp_settle env f success i (pool_breaker i p.pool) p.pool;
    }

    -- proxyUdp from its dial on: the address of the far end, if there is one, and whether the first
    -- packet is written.
    unfoldable pub proxy_udp : Option Str → Bool → ℕ → Str → Str → ℕ → UdpProxy Cb K → UdpProxy Cb K
    proxy_udp none writes t client packet i p = udp_settle false i p
    proxy_udp (some remote) writes t client packet i p =
        udp_settle writes i (open_flow t client packet remote i p)
