-- ===== src/TestServer/Greets.antt =====
-- The UDP server of internal/backend/server.go behind a proxy of internal/lb/udp_proxy.go.
use mathlib.Core.List.{append-nil, append_assoc}
use go_load_balancer.Prelude.{ℕ, ◌≡◌, refl, ap, sym, ◌∙◌, some, List, [], ◌∷◌, ◌++◌, map, get_elem?}
use go_load_balancer.Text.{Str}
use go_load_balancer.Http.{GoCache}
use go_load_balancer.Udp.{UdpFlow, UdpProxy, received, listener_turn, listen_for_backend}
use go_load_balancer.TestServer.{hello_udp, run_udp_server}

module _ {Cb K : Type 0} (sessions : GoCache ℕ K) where
  -- The goroutine of a flow reads one after the other what the backend has written.
  unfoldable pub listen_all : ℕ → List (Str × Str) → ℕ → UdpProxy Cb K → UdpProxy Cb K
  listen_all t [] j p = p
  listen_all t ((addr, packet) ∷ written) j p =
      listen_all t written j (listen_for_backend sessions t (received packet) j p)

  passed_on :
      (t j : ℕ) (flow : UdpFlow) (packet : Str) (p : UdpProxy Cb K)
      → get_elem? p.flows j ≡ some flow
      → listen_for_backend sessions t (received packet) j p
        ≡ record p { answers = p.answers ++ (flow.client_addr, packet) ∷ [] }
  unfolding listen_for_backend listener_turn
  passed_on t j flow packet p there = rw (there, listen_for_backend, listener_turn) refl

  -- The UDP server is sent packets on a flow of the proxy, and the goroutine of the flow reads its
  -- answers: the proxy writes one greeting for each packet, all to the flow's client, and nothing else
  -- of the proxy changes.
  pub each_packet_is_greeted :
      (server_id addr : Str) (t j : ℕ) (flow : UdpFlow) (packets : List Str) (p : UdpProxy Cb K)
      → get_elem? p.flows j ≡ some flow
      → listen_all t (run_udp_server server_id (map (λ b. some (addr, b)) packets)).0 j p
        ≡ record p {
          answers = p.answers ++ map (λ _. (flow.client_addr, hello_udp server_id)) packets;
        }
  unfolding listen_all run_udp_server
  each_packet_is_greeted server_id addr t j flow [] p there =
      ap (λ a. record p { answers = a }) (sym (append-nil p.answers))
  each_packet_is_greeted server_id addr t j flow (b ∷ packets) p there =
      let greeting : Str × Str = (flow.client_addr, hello_udp server_id) in
      let p' : UdpProxy Cb K = record p { answers = p.answers ++ greeting ∷ [] } in
      let rest = map (λ (x : Str). some (addr, x)) packets in
      ap (listen_all t (run_udp_server server_id rest).0 j)
        (passed_on t j flow (hello_udp server_id) p there)
      ∙ each_packet_is_greeted server_id addr t j flow packets p' there
      ∙ ap (λ a. record p { answers = a })
          (append_assoc p.answers (greeting ∷ []) (map (λ _. greeting) packets))
