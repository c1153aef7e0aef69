-- ===== src/TestServer/Behind.antt =====
-- The HTTP server of internal/backend/server.go behind a reverse proxy of internal/lb/backend.go.
use go_load_balancer.Prelude.{Bool, none, some, List, [], if◌then◌else◌}
use go_load_balancer.Text.{Str}
use go_load_balancer.Route.{Request}
use go_load_balancer.Http.{Writer, Answer, answered, unreachable}
use go_load_balancer.Forward.{ReverseProxy, IsReverseProxy, outgoing}

-- A request as it comes to the handler: over a connection of the load balancer.
unfoldable pub arriving : ReverseProxy → Str → Bool → Request → Request
arriving rp lb_addr tls r = record (outgoing rp tls r) { remote_addr = lb_addr }

-- The response that the server has before its handler runs, with the headers that net/http adds.
abbrev pub unwritten : List (Str × Str) → Writer
unwritten headers = record { headers = headers; status = none; body = [] }

-- What a finished response, with no hop-by-hop header, comes to at the reverse proxy.
unfoldable pub answer_of : Writer → Answer
answer_of w = elim w.status [ none ↦ unreachable | some status ↦ answered status w.headers w.body ]

module _ (rp : ReverseProxy) (laws : IsReverseProxy rp) (tls : Bool) (r : Request) where
  -- What a header that the Director has set comes to, where the client's Connection may name it.
  abbrev unless_named : Str → Str → Str
  unless_named key value = if rp.is_hop_by_hop r.header key then [] else value
