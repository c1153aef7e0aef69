-- ===== src/Udp/Race.antt =====
-- Two packets of a new client in internal/lb/udp_proxy.go whose handlers both look for a session
-- before either has dialled its backend.
use go_load_balancer.Prelude.{
  ℕ, zero, suc, modify, ◌≡◌, ◌≢◌, ◌≤◌, ◌<◌, ◌+◌, refl, ap, ◌∙◌, Bool, true, none, some, List, [],
  ◌∷◌, ◌++◌, arith, map, length, get_elem?, get_elem?-modify_ne, length-append,
}
use go_load_balancer.Text.{Str}
use go_load_balancer.Extern.{Env, FloatOps}
use go_load_balancer.Http.{GoCache, IsGoCache}
use go_load_balancer.Tcp.{TcpStage, over, dialling, proxying}
use go_load_balancer.Udp.{
  UdpFlow, UdpProxy, write_flow, new_session, on_session, handle_udp_packet, open_flow, udp_settle,
  proxy_udp, listen_for_backend, listener_turn, is_found, timed_out,
}
use go_load_balancer.Udp.Sessions.{
  handle_all, InTime, last_time, written, written-open, refreshed, handle_all-session,
  get-refreshed, get_elem?-last,
}

get_elem?-append :
    {A : Type 0} (xs ys : List A) (i : ℕ) (x : A)
    → get_elem? xs i ≡ some x
    → get_elem? (xs ++ ys) i ≡ some x
get_elem?-append [] ys i x h = cc
get_elem?-append (y ∷ xs) ys zero x h = h
get_elem?-append (y ∷ xs) ys (suc i) x h = get_elem?-append xs ys i x h

written-other :
    (j i : ℕ) (ps : List (ℕ × Str)) (flows : List UdpFlow)
    → j ≢ i
    → get_elem? (written j ps flows) i ≡ get_elem? flows i
written-other j i [] flows ne = refl
written-other j i ((t, packet) ∷ ps) flows ne =
    written-other j i ps (modify flows j (write_flow packet)) ne
    ∙ get_elem?-modify_ne flows j i (write_flow packet) ne

-- A packet, the time of its handler, the far end of the connection that its dial gives, and whether
-- its write succeeds.
pub record Packet : Type 0 where
  pub time : ℕ
  pub bytes : Str
  pub remote : Str
  pub writes : Bool

-- The flow that a packet opens.
abbrev pub flow_of : Str → Packet → UdpFlow
flow_of client x = record {
  client_addr = client;
  remote_addr = x.remote;
  is_open = true;
  sent = x.bytes ∷ [];
}

module _ {Cb K : Type 0} (sessions : GoCache ℕ K) (env : Env Cb) (f : FloatOps) where
  -- The rest of the handler of a packet.
  unfoldable pub dial_stage : TcpStage → Str → Packet → UdpProxy Cb K → UdpProxy Cb K
  dial_stage over client x p = p
  dial_stage (dialling i) client x p =
      proxy_udp sessions env f (some x.remote) x.writes x.time client x.bytes i p
  dial_stage (proxying i) client x p = p

  -- Both handlers up to their dials, and then the rest of the first and of the second.
  unfoldable pub race : Str → Packet → Packet → UdpProxy Cb K → UdpProxy Cb K
  unfolding dial_stage
  race client x y p =
      let (p', first) = handle_udp_packet sessions env f x.time client x.bytes p in
      let (p'', second) = handle_udp_packet sessions env f y.time client y.bytes p' in
      dial_stage second client y (dial_stage first client x p'')

  dialled-flows :
      (i : ℕ) (client : Str) (x : Packet) (p : UdpProxy Cb K)
      → let q = dial_stage (dialling i) client x p in
        (q.flows ≡ p.flows ++ flow_of client x ∷ [])
        × (q.sessions ≡ sessions.set x.time client (length p.flows) p.sessions)
  unfolding dial_stage proxy_udp udp_settle open_flow write_flow
  dialled-flows i client x p = (refl, refl)

  missed :
      (t : ℕ) (client packet : Str) (p : UdpProxy Cb K)
      → sessions.get t client p.sessions ≡ none
      → handle_udp_packet sessions env f t client packet p ≡ new_session sessions env f client p
  unfolding handle_udp_packet on_session
  missed t client packet p miss = rw miss refl

  -- What a handler without a session keeps until its dial.
  missed-keeps :
      (t : ℕ) (client packet : Str) (p : UdpProxy Cb K)
      → sessions.get t client p.sessions ≡ none
      → let p' = (handle_udp_packet sessions env f t client packet p).0 in
        (p'.flows ≡ p.flows) × (p'.sessions ≡ p.sessions)
  unfolding new_session
  missed-keeps t client packet p miss =
      let e = missed t client packet p miss in (ap (λ q. q.0.flows) e, ap (λ q. q.0.sessions) e)

  race_flows :
      (client : Str) (x y : Packet) (i j : ℕ) (p : UdpProxy Cb K)
      → sessions.get x.time client p.sessions ≡ none
      → sessions.get y.time client p.sessions ≡ none
      → let (p', first) = handle_udp_packet sessions env f x.time client x.bytes p in
        let (p'', second) = handle_udp_packet sessions env f y.time client y.bytes p' in
        let q = race client x y p in
        first ≡ dialling i
        → second ≡ dialling j
        → (q.flows ≡ (p.flows ++ flow_of client x ∷ []) ++ flow_of client y ∷ [])
          × (q.sessions
              ≡ sessions.set y.time client
                  (length (p.flows ++ flow_of client x ∷ []))
                  (sessions.set x.time client (length p.flows) p.sessions))
  unfolding race proxy_udp udp_settle open_flow write_flow
  race_flows client x y i j p miss miss' h h' =
      let (p', first) = handle_udp_packet sessions env f x.time client x.bytes p in
      let (p'', second) = handle_udp_packet sessions env f y.time client y.bytes p' in
      let (flows, kept) = missed-keeps x.time client x.bytes p miss in
      let (flows', kept') =
        missed-keeps y.time client y.bytes p' (ap (sessions.get y.time client) kept ∙ miss') in
      let (one, set_one) = dialled-flows i client x p'' in
      let (two, set_two) = dialled-flows j client y (dial_stage (dialling i) client x p'') in
      let staged : race client x y p
          ≡ dial_stage (dialling j) client y (dial_stage (dialling i) client x p'') =
        ap (λ s. dial_stage s client y (dial_stage first client x p'')) h'
        ∙ ap (λ s. dial_stage (dialling j) client y (dial_stage s client x p'')) h in
      let same_flows = flows' ∙ flows in
      let same_sessions = kept' ∙ kept in
      (
        ap (λ q. q.flows) staged
            ∙ two
            ∙ ap (λ fs. (fs ++ flow_of client x ∷ []) ++ flow_of client y ∷ []) same_flows,
        ap (λ q. q.sessions) staged
            ∙ set_two
            ∙ ap
                (λ fs.
                  sessions.set y.time client (length (fs ++ flow_of client x ∷ []))
                    (sessions.set x.time client (length fs) p''.sessions))
                same_flows
            ∙ ap
                (λ k.
                  sessions.set y.time client (length (p.flows ++ flow_of client x ∷ []))
                    (sessions.set x.time client (length p.flows) k))
                same_sessions,
      )

  -- A goroutine whose session is found goes on when its read times out.
  live_listener :
      (q : UdpProxy Cb K) (t n m : ℕ) (flow : UdpFlow)
      → get_elem? q.flows n ≡ some flow
      → sessions.get t flow.client_addr q.sessions ≡ some m
      → listen_for_backend sessions t timed_out n q ≡ q
  unfolding listen_for_backend listener_turn is_found
  live_listener q t n m flow there alive = rw (there, listen_for_backend, listener_turn, alive) refl

  -- The handlers of two packets of a client without a session both choose a backend before either
  -- dials, and further packets of the client each come before the session of the one before it
  -- expires. Then two flows are opened. The first is only ever given its one packet, while the second
  -- is given its packet and all further ones; and as long as the session that they renew has not
  -- expired, the goroutine of the first flow goes on when its read times out, so that the first flow
  -- stays open.
  pub raced_flow_is_orphaned :
      IsGoCache sessions
      → (client : Str) (x y : Packet) (i j t : ℕ) (ps : List (ℕ × Str)) (p : UdpProxy Cb K)
      → sessions.get x.time client p.sessions ≡ none
      → sessions.get y.time client p.sessions ≡ none
      → let (p', first) = handle_udp_packet sessions env f x.time client x.bytes p in
        let (p'', second) = handle_udp_packet sessions env f y.time client y.bytes p' in
        let q = handle_all sessions env f client ps (race client x y p) in
        let sent = map (λ (s : ℕ × Str). s.1) ps in
        first ≡ dialling i
        → second ≡ dialling j
        → InTime sessions y.time ps
        → last_time y.time ps ≤ t
        → t < last_time y.time ps + sessions.ttl
        → (get_elem? q.flows (length p.flows) ≡ some (flow_of client x))
          × (get_elem? q.flows (suc (length p.flows))
              ≡ some (record (flow_of client y) { sent = y.bytes ∷ sent }))
          × (listen_for_backend sessions t timed_out (length p.flows) q ≡ q)
  raced_flow_is_orphaned laws client x y i j t ps p miss miss' h h' times from until =
      let one = p.flows ++ flow_of client x ∷ [] in
      let q = race client x y p in
      let k = sessions.set x.time client (length p.flows) p.sessions in
      let (flows, session) = race_flows client x y i j p miss miss' h h' in
      let run =
        handle_all-session sessions laws env f client (length one) y.time k ps q session times in
      let second = length-append p.flows (flow_of client x ∷ []) in
      let there =
        ap (λ u. get_elem? u.flows (length p.flows)) run
        ∙ written-other (length one) (length p.flows) ps q.flows
            (λ e. absurd (omega (arith, e, second)))
        ∙ ap (λ fs. get_elem? fs (length p.flows)) flows
        ∙ get_elem?-append one (flow_of client y ∷ []) (length p.flows) (flow_of client x)
            (get_elem?-last p.flows (flow_of client x)) in
      (
        there,
        ap (λ n. get_elem? (handle_all sessions env f client ps q).flows n) (omega (arith, second))
            ∙ ap (λ u. get_elem? u.flows (length one)) run
            ∙ written-open (length one) ps q.flows (flow_of client y)
                (ap (λ fs. get_elem? fs (length one)) flows ∙ get_elem?-last one (flow_of client y))
                refl,
        live_listener (handle_all sessions env f client ps q) t (length p.flows) (length one)
            (flow_of client x) there
            (ap (λ u. sessions.get t client u.sessions) run
              ∙ ap (λ s. sessions.get t client (refreshed sessions client (length one) ps s))
                  session
              ∙ get-refreshed sessions laws env f client (length one) y.time t k ps from until),
      )
