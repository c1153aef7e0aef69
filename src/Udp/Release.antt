-- ===== src/Udp/Release.antt =====
-- The backend that listenForBackend of internal/lb/udp_proxy.go counts a flow out of: it is looked up
-- by the address of the far end of the flow's connection.
use mathlib.Core.List.{Mem, Nodup, Nodup-cons, mem-cons_self, mem-cons_of_mem}
use mathlib.Core.Option.{some-injective}
use go_load_balancer.Prelude.{
  ℕ, zero, suc, ◌≡◌, ◌<◌, ◌+◌, ◌^◌, refl, ap, sym, subst, ◌∙◌, true, false, none, some, List, [],
  ◌∷◌, map, arith, length, get_elem?, modify, get_elem?-modify_self, get_elem?-map,
}
use go_load_balancer.Text.{Str, eqs, eqs_iff, differ}
use go_load_balancer.Backend.{Backend, increment_connections, decrement_connections}
use go_load_balancer.Pool.Connections.{increment-decrement}
use go_load_balancer.Http.{GoCache}
use go_load_balancer.Tcp.{with_backend}
use go_load_balancer.Udp.{
  UdpFlow, UdpProxy, write_flow, open_flow, find_backend, release, listener_end,
}
use go_load_balancer.Udp.Sessions.{get_elem?-last}

abbrev pub addresses : {Cb : Type 0} → List (Backend Cb) → List Str
addresses bs = map (λ b. b.addr) bs

get_elem?-Mem : (addrs : List Str) (i : ℕ) (a : Str) → get_elem? addrs i ≡ some a → Mem a addrs
get_elem?-Mem [] i a h = cc
get_elem?-Mem (c ∷ cs) zero a h = subst (λ d. Mem d (c ∷ cs)) (some-injective c a h) mem-cons_self
get_elem?-Mem (c ∷ cs) (suc i) a h = mem-cons_of_mem c (get_elem?-Mem cs i a h)

module _ {Cb : Type 0} where
  find_backend_at :
      (remote : Str) (s : ℕ) (bs : List (Backend Cb)) (i : ℕ) (b : Backend Cb)
      → Nodup (addresses bs)
      → get_elem? bs i ≡ some b
      → b.addr ≡ remote
      → find_backend remote s bs ≡ some (s + i)
  unfolding find_backend
  find_backend_at remote s [] i b distinct h e = cc
  find_backend_at remote s (c ∷ bs) zero b distinct h e =
      let same = (eqs_iff c.addr remote).1 (ap (λ x. x.addr) (some-injective c b h) ∙ e) in
      rw same (ap some (omega arith))
  find_backend_at remote s (c ∷ bs) (suc i) b distinct h e =
      let there =
        get_elem?-Mem (addresses bs) i remote (get_elem?-map (λ x. x.addr) bs i h ∙ ap some e) in
      let other : eqs c.addr remote ≡ false =
        differ c.addr remote (λ same.
          (Nodup-cons.0 distinct).0 (subst (λ a. Mem a (addresses bs)) (sym same) there)) in
      rw other (
        find_backend_at remote (suc s) bs i b (Nodup-cons.0 distinct).1 h e ∙ ap some (omega arith))

  -- In a pool whose addresses are distinct, the backend of an address is found.
  pub find_backend_lem :
      (remote : Str) (bs : List (Backend Cb)) (i : ℕ) (b : Backend Cb)
      → Nodup (addresses bs)
      → get_elem? bs i ≡ some b
      → b.addr ≡ remote
      → find_backend remote 0 bs ≡ some i
  find_backend_lem remote bs i b distinct h e =
      find_backend_at remote 0 bs i b distinct h e ∙ ap some (omega arith)

  find_backend-none :
      (remote : Str) (s : ℕ) (bs : List (Backend Cb))
      → ¬ Mem remote (addresses bs)
      → find_backend remote s bs ≡ none
  unfolding find_backend
  find_backend-none remote s [] out = refl
  find_backend-none remote s (c ∷ bs) out =
      let other : eqs c.addr remote ≡ false =
        differ c.addr remote
          (λ same. out (subst (λ a. Mem a (addresses (c ∷ bs))) same mem-cons_self)) in
      rw other (find_backend-none remote (suc s) bs (λ m. out (mem-cons_of_mem c.addr m)))

  addresses-modify :
      (bs : List (Backend Cb)) (i : ℕ)
      → addresses (modify bs i increment_connections) ≡ addresses bs
  unfolding increment_connections
  addresses-modify [] i = refl
  addresses-modify (b ∷ bs) zero = refl
  addresses-modify (b ∷ bs) (suc i) = ap (λ addrs. b.addr ∷ addrs) (addresses-modify bs i)

module _ {Cb K : Type 0} (sessions : GoCache ℕ K) where
  ended-pool :
      (t : ℕ) (client packet remote : Str) (i : ℕ) (p : UdpProxy Cb K)
      → let p' = open_flow sessions t client packet remote i p in
        (listener_end sessions (length p.flows) p').pool
        ≡ release (find_backend remote 0 p'.pool.backends) p'.pool
  unfolding open_flow listener_end write_flow
  ended-pool t client packet remote i p =
      let flow : UdpFlow = record {
        client_addr = client;
        remote_addr = remote;
        is_open = true;
        sent = packet ∷ [];
      } in
      rw (get_elem?-last p.flows flow, listener_end) refl

  -- A flow whose far end has the address of its backend, in a pool whose addresses are distinct: once
  -- its goroutine has ended, the counter of the backend is what it was before the flow.
  pub flow_is_counted_out :
      (t : ℕ) (client packet : Str) (i : ℕ) (b : Backend Cb) (p : UdpProxy Cb K)
      → Nodup (addresses p.pool.backends)
      → get_elem? p.pool.backends i ≡ some b
      → b.connections < 2 ^ 64
      → get_elem?
          (listener_end sessions
            (length p.flows)
            (open_flow sessions t client packet b.addr i p)).pool.backends
          i
        ≡ some b
  unfolding open_flow release with_backend increment_connections
  flow_is_counted_out t client packet i b p distinct there small =
      let p' = open_flow sessions t client packet b.addr i p in
      let counted = get_elem?-modify_self p.pool.backends i increment_connections there in
      let found =
        find_backend_lem b.addr p'.pool.backends i (increment_connections b)
          (subst Nodup (sym (addresses-modify p.pool.backends i)) distinct) counted refl in
      rw (ended-pool t client packet b.addr i p, found)
        (get_elem?-modify_self p'.pool.backends i decrement_connections counted
          ∙ ap some (increment-decrement b small))

  -- A flow whose far end has an address that stands at no backend, as it is where the configuration
  -- names a host that the dial resolves: its backend is still counted one more when its goroutine has
  -- ended.
  pub unmatched_flow_stays_counted :
      (t : ℕ) (client packet remote : Str) (i : ℕ) (b : Backend Cb) (p : UdpProxy Cb K)
      → ¬ Mem remote (addresses p.pool.backends)
      → get_elem? p.pool.backends i ≡ some b
      → get_elem?
          (listener_end sessions
            (length p.flows)
            (open_flow sessions t client packet remote i p)).pool.backends
          i
        ≡ some (increment_connections b)
  unfolding open_flow release with_backend
  unmatched_flow_stays_counted t client packet remote i b p out there =
      let p' = open_flow sessions t client packet remote i p in
      let missed =
        find_backend-none remote 0 p'.pool.backends
          (λ m. out (subst (Mem remote) (addresses-modify p.pool.backends i) m)) in
      rw (ended-pool t client packet remote i p, missed)
        (get_elem?-modify_self p.pool.backends i increment_connections there)
