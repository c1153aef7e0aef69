-- ===== src/Tcp.antt =====
-- internal/lb/tcp_proxy.go: a TCP listener's proxy, and the life of a connection. Sockets are
-- parameters: whether an address can be listened on, and whether a backend is dialled.
pub mod Pools
pub mod Refines
pub mod Runs
pub mod Waits
mod Examples
use go_load_balancer.Prelude.{
  ℕ, suc, ◌+◌, ◌-◌, Bool, true, false, Option, none, some, List, [], ◌∷◌, if◌then◌else◌, get_elem?,
  modify,
}
use go_load_balancer.Text.{Str, eqs}
use go_load_balancer.Config.{ListenerConfig}
use go_load_balancer.Extern.{Env, FloatOps, Refusal}
use go_load_balancer.Backend.{Backend, BackendPool, increment_connections, decrement_connections}
use go_load_balancer.Strategy.{get_next_backend}
use go_load_balancer.Balancer.{LoadBalancer}

-- lb.l4Pools[name]
unfoldable pub lookup_pool {ℓ} : {P : Type ℓ} → Str → List (Str × P) → Option P
lookup_pool name [] = none
lookup_pool name ((n, p) ∷ m) = let rest = lookup_pool name m in if eqs n name then some p else rest

pub record TcpProxy (Cb : Type 0) : Type 0 where
  pub pool : BackendPool Cb
  pub listener_name : Str

-- NewTcpProxy
unfoldable pub on_l4_pool :
    {Cb : Type 0} → Bool → Str → Option (BackendPool Cb) → Option (TcpProxy Cb)
on_l4_pool listens name none = none
on_l4_pool listens name (some p) =
    if listens then some (record { pool = p; listener_name = name }) else none

unfoldable pub new_tcp_proxy :
    {Cb : Type 0} → (Str → Bool) → ListenerConfig → LoadBalancer Cb → Option (TcpProxy Cb)
unfolding on_l4_pool
new_tcp_proxy listens l lb =
    on_l4_pool (listens l.listen_addr) l.name (lookup_pool l.name lb.l4_pools)

-- Where a connection stands: it is over, it may dial the backend of a position, or its data is
-- copied to and from that backend.
pub data TcpStage : Type 0 where
  over : TcpStage
  dialling : ℕ → TcpStage
  proxying : ℕ → TcpStage

module _ {Cb : Type 0} where
  unfoldable pub with_backend : ℕ → (Backend Cb → Backend Cb) → BackendPool Cb → BackendPool Cb
  with_backend i g p = record p { backends = modify p.backends i g }

  unfoldable pub set_breaker : ℕ → Cb → BackendPool Cb → BackendPool Cb
  unfolding with_backend
  set_breaker i c = with_backend i (λ b. record b { cb = some c })

  unfoldable pub pool_breaker : ℕ → BackendPool Cb → Option Cb
  pool_breaker i p = elim (get_elem? p.backends i) [ none ↦ none | some b ↦ b.cb ]

module _ {Cb : Type 0} (env : Env Cb) (f : FloatOps) where
  -- Execute before the call.
  unfoldable pub tcp_refusal : Option Refusal → ℕ → BackendPool Cb → BackendPool Cb × TcpStage
  tcp_refusal none i p = (p, dialling i)
  tcp_refusal (some refusal) i p = (p, over)

  unfoldable pub tcp_admit : Option Cb → ℕ → BackendPool Cb → BackendPool Cb × TcpStage
  unfolding tcp_refusal
  tcp_admit none i p = (p, dialling i)
  tcp_admit (some c) i p =
      let (refusal, c') = env.admit c in tcp_refusal refusal i (set_breaker i c' p)

  -- Execute after the call.
  unfoldable pub tcp_settle : Bool → ℕ → Option Cb → BackendPool Cb → BackendPool Cb
  tcp_settle success i none p = p
  tcp_settle success i (some c) p = set_breaker i (env.settle success c) p

  unfoldable pub tcp_chosen : Option ℕ → BackendPool Cb → BackendPool Cb × TcpStage
  tcp_chosen none p = (p, over)
  tcp_chosen (some i) p = tcp_admit (pool_breaker i p) i p

  -- handleTcpConnection up to the call of proxyTcp. The client's address has its port.
  unfoldable pub tcp_begin : Str → BackendPool Cb → BackendPool Cb × TcpStage
  tcp_begin client p = let (p', chosen) = get_next_backend env f client p in tcp_chosen chosen p'

  -- proxyTcp up to the copies, with whether the backend is dialled.
  unfoldable pub tcp_dialled : Bool → ℕ → BackendPool Cb → BackendPool Cb × TcpStage
  tcp_dialled true i p = (with_backend i increment_connections p, proxying i)
  tcp_dialled false i p = (tcp_settle false i (pool_breaker i p) p, over)

  -- proxyTcp from the end of both copies on: its deferred decrement, and its nil error.
  unfoldable pub tcp_finish : ℕ → BackendPool Cb → BackendPool Cb
  tcp_finish i p =
      let p' = with_backend i decrement_connections p in tcp_settle true i (pool_breaker i p') p'
