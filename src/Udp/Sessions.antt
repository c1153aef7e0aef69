-- ===== src/Udp/Sessions.antt =====
-- A client's session in internal/lb/udp_proxy.go: the flow that its packets go to.
use mathlib.Core.List.{append-nil, append_assoc}
use go_load_balancer.Prelude.{
  ℕ, zero, suc, ◌≡◌, ◌≤◌, ◌<◌, ◌+◌, refl, ap, ◌∙◌, Bool, true, false, some, List, [], ◌∷◌, ◌++◌,
  map, length, get_elem?, modify, get_elem?-modify_self,
}
use go_load_balancer.Text.{Str}
use go_load_balancer.Extern.{Env, FloatOps}
use go_load_balancer.Http.{GoCache, IsGoCache}
use go_load_balancer.Udp.{
  UdpFlow, UdpProxy, write_flow, forward, on_session, handle_udp_packet, close_flow, open_flow,
  udp_settle, proxy_udp, listener_turn, listen_for_backend, listener_end, udp_shutdown, is_found,
  timed_out,
}

module _ {ℓ} {A : Type ℓ} where
  modify_fixed :
      (xs : List A) (i : ℕ) (g : A → A) (x : A)
      → get_elem? xs i ≡ some x
      → g x ≡ x
      → modify xs i g ≡ xs
  modify_fixed [] i g x h fixed = refl
  modify_fixed (y ∷ xs) zero g x h fixed = cc
  modify_fixed (y ∷ xs) (suc i) g x h fixed = ap (λ zs. y ∷ zs) (modify_fixed xs i g x h fixed)

  pub get_elem?-last : (xs : List A) (a : A) → get_elem? (xs ++ a ∷ []) (length xs) ≡ some a
  get_elem?-last [] a = refl
  get_elem?-last (x ∷ xs) a = get_elem?-last xs a

module _ {K : Type 0} (sessions : GoCache ℕ K) where
  -- The packets of a client, one after the other, each with its time.
  unfoldable pub handle_all :
      {Cb : Type 0} → Env Cb → FloatOps → Str → List (ℕ × Str) → UdpProxy Cb K → UdpProxy Cb K
  handle_all env f client [] p = p
  handle_all env f client ((t, packet) ∷ ps) p =
      handle_all env f client ps (handle_udp_packet sessions env f t client packet p).0

  -- Each packet comes before the session of the one before it expires.
  abbrev pub InTime : ℕ → List (ℕ × Str) → Type 0
  InTime t [] = Unit
  InTime t ((t', packet) ∷ ps) = (t ≤ t') × (t' < t + sessions.ttl) × InTime t' ps

  abbrev pub refreshed : Str → ℕ → List (ℕ × Str) → K → K
  refreshed client j [] k = k
  refreshed client j ((t, packet) ∷ ps) k = refreshed client j ps (sessions.set t client j k)

abbrev pub last_time : ℕ → List (ℕ × Str) → ℕ
last_time t [] = t
last_time t ((t', packet) ∷ ps) = last_time t' ps

abbrev pub written : ℕ → List (ℕ × Str) → List UdpFlow → List UdpFlow
written j [] flows = flows
written j ((t, packet) ∷ ps) flows = written j ps (modify flows j (write_flow packet))

pub written-open :
    (j : ℕ) (ps : List (ℕ × Str)) (flows : List UdpFlow) (flow : UdpFlow)
    → get_elem? flows j ≡ some flow
    → flow.is_open ≡ true
    → get_elem? (written j ps flows) j
      ≡ some (record flow { sent = flow.sent ++ map (λ p. p.1) ps })
unfolding write_flow
written-open j [] flows flow h live = rw (append-nil flow.sent) h
written-open j ((t, packet) ∷ ps) flows flow h live =
    let wrote : get_elem? (modify flows j (write_flow packet)) j
        ≡ some (record flow { sent = flow.sent ++ packet ∷ [] }) =
      get_elem?-modify_self flows j (write_flow packet) h ∙ rw live refl in
    written-open j ps (modify flows j (write_flow packet))
      (record flow { sent = flow.sent ++ packet ∷ [] }) wrote live
    ∙ ap (λ ds. some (record flow { sent = ds }))
        (append_assoc flow.sent (packet ∷ []) (map (λ p. p.1) ps))

written-closed :
    (j : ℕ) (ps : List (ℕ × Str)) (flows : List UdpFlow) (flow : UdpFlow)
    → get_elem? flows j ≡ some flow
    → flow.is_open ≡ false
    → written j ps flows ≡ flows
unfolding write_flow
written-closed j [] flows flow h closed = refl
written-closed j ((t, packet) ∷ ps) flows flow h closed =
    let same = modify_fixed flows j (write_flow packet) flow h (rw closed refl) in
    rw same (written-closed j ps flows flow h closed)

module _ {Cb K : Type 0} (sessions : GoCache ℕ K) (laws : IsGoCache sessions) (env : Env Cb)
    (f : FloatOps) where
  pub handle_all-session :
      (client : Str) (j t : ℕ) (k : K) (ps : List (ℕ × Str)) (p : UdpProxy Cb K)
      → p.sessions ≡ sessions.set t client j k
      → InTime sessions t ps
      → handle_all sessions env f client ps p ≡ record p {
        flows = written j ps p.flows;
        sessions = refreshed sessions client j ps p.sessions;
      }
  unfolding handle_all handle_udp_packet on_session forward
  handle_all-session client j t k [] p h times = refl
  handle_all-session client j t k ((t', packet) ∷ ps) p h (from, until, times) =
      let hit = ap (sessions.get t' client) h ∙ laws.hit t client j k t' from until in
      rw hit (
        handle_all-session client j t' p.sessions ps (forward sessions t' client packet j p) refl
          times)

  pub get-refreshed :
      (client : Str) (j t t' : ℕ) (k : K) (ps : List (ℕ × Str))
      → last_time t ps ≤ t'
      → t' < last_time t ps + sessions.ttl
      → sessions.get t' client (refreshed sessions client j ps (sessions.set t client j k)) ≡ some j
  get-refreshed client j t t' k [] from until = laws.hit t client j k t' from until
  get-refreshed client j t t' k ((s, packet) ∷ ps) from until =
      get-refreshed client j s t' (sessions.set t client j k) ps from until

  session_run :
      (client : Str) (j t : ℕ) (k : K) (ps : List (ℕ × Str)) (p : UdpProxy Cb K)
      → p.sessions ≡ sessions.set t client j k
      → InTime sessions t ps
      → let q = handle_all sessions env f client ps p in
        (q.pool ≡ p.pool) × (q.flows ≡ written j ps p.flows)
  session_run client j t k ps p h times =
      let run = handle_all-session client j t k ps p h times in
      (ap (λ q. q.pool) run, ap (λ q. q.flows) run)

  -- A new flow is made for a packet of a client, whether or not its first write fails, and each
  -- further packet of the client comes before the session of the one before it expires: they all go to
  -- this flow, in their order and none twice, and no backend is chosen or counted for them.
  pub new_session_carries_all :
      (t : ℕ) (client packet remote : Str) (writes : Bool) (i : ℕ) (ps : List (ℕ × Str))
      (p : UdpProxy Cb K)
      → InTime sessions t ps
      → let p' = proxy_udp sessions env f (some remote) writes t client packet i p in
        let q = handle_all sessions env f client ps p' in
        (q.pool ≡ p'.pool)
        × (get_elem? q.flows (length p.flows)
            ≡ some (record {
              client_addr = client;
              remote_addr = remote;
              is_open = true;
              sent = packet ∷ map (λ sent. sent.1) ps;
            }))
  unfolding proxy_udp udp_settle open_flow write_flow
  new_session_carries_all t client packet remote writes i ps p times =
      let p' = proxy_udp sessions env f (some remote) writes t client packet i p in
      let flow : UdpFlow = record {
        client_addr = client;
        remote_addr = remote;
        is_open = true;
        sent = packet ∷ [];
      } in
      let (same, flows) = session_run client (length p.flows) t p.sessions ps p' refl times in
      (
        same,
        ap (λ fs. get_elem? fs (length p.flows)) flows
            ∙ written-open (length p.flows) ps p'.flows flow (get_elem?-last p.flows flow) refl,
      )

  -- The flow of a session is closed, since its goroutine has met an error, and the client goes on
  -- sending before the session expires: none of its packets is written to any flow, no backend is
  -- chosen, and the session is still that flow's.
  pub closed_flow_keeps_session :
      (client : Str) (j t t' : ℕ) (k : K) (flow : UdpFlow) (ps : List (ℕ × Str)) (p : UdpProxy Cb K)
      → p.sessions ≡ sessions.set t client j k
      → get_elem? p.flows j ≡ some flow
      → flow.is_open ≡ false
      → InTime sessions t ps
      → last_time t ps ≤ t'
      → t' < last_time t ps + sessions.ttl
      → let q = handle_all sessions env f client ps p in
        (q.pool ≡ p.pool) × (q.flows ≡ p.flows) × (sessions.get t' client q.sessions ≡ some j)
  closed_flow_keeps_session client j t t' k flow ps p h there closed times from until =
      let (same, flows) = session_run client j t k ps p h times in
      (
        same,
        flows ∙ written-closed j ps p.flows flow there closed,
        ap (λ q. sessions.get t' client q.sessions) (handle_all-session client j t k ps p h times)
            ∙ ap (λ s. sessions.get t' client (refreshed sessions client j ps s)) h
            ∙ get-refreshed client j t t' k ps from until,
      )

  -- After Shutdown, the goroutine of every flow ends when a read of it times out: its loop is over,
  -- and its flow is closed.
  pub shutdown_ends_listeners :
      (p : UdpProxy Cb K) (t j : ℕ) (flow : UdpFlow)
      → get_elem? p.flows j ≡ some flow
      → let p' = udp_shutdown sessions p in
        (listen_for_backend sessions t timed_out j p' ≡ listener_end sessions j p')
        × (get_elem? (listen_for_backend sessions t timed_out j p').flows j
            ≡ some (record flow { is_open = false }))
  unfolding udp_shutdown listen_for_backend listener_turn listener_end close_flow is_found
  shutdown_ends_listeners p t j flow there =
      let gone = laws.flushed t flow.client_addr p.sessions in
      (
        rw (there, gone, listen_for_backend, listener_turn) refl,
        rw (there, gone, listen_for_backend, there, listener_end)
            (get_elem?-modify_self p.flows j close_flow there),
      )
