-- ===== src/Forward.antt =====
-- internal/lb/backend.go: the Director of a backend's reverse proxy, and the request that the backend
-- is sent. httputil's own Director and the names of the hop-by-hop headers are parameters.
use go_load_balancer.Prelude.{◌≡◌, ◌≢◌, Bool, false, ◌||◌, some, [], ◌++◌, if◌then◌else◌}
use go_load_balancer.Text.{Str, str, eqs, split_host_port}
use go_load_balancer.Route.{Request}

-- r.Header.Set and r.Header.Del, on what Get answers.
unfoldable pub set_header : Str → Str → Request → Request
set_header key value r = record r { header = λ k. if eqs k key then value else r.header k }

-- What httputil brings: the Director of NewSingleHostReverseProxy, what ServeHTTP makes of a request
-- once its Director has returned, and whether a header among others is hop-by-hop, by its name or by
-- the header Connection. A request has at most one line of Connection.
pub record ReverseProxy : Type 0 where
  pub original_director : Request → Request
  pub is_hop_by_hop : (Str → Str) → Str → Bool
  pub after_director : Request → Request

-- The headers that ServeHTTP itself may set: after it has taken off what is hop-by-hop, it puts back
-- "Te: trailers" and, for an upgrade, Connection and Upgrade, and adds to X-Forwarded-For.
unfoldable pub is_set_by_proxy : Str → Bool
is_set_by_proxy key =
    (eqs key (str "X-Forwarded-For") || eqs key (str "Te"))
    || (eqs key (str "Connection") || eqs key (str "Upgrade"))

-- What it documents: its Director leaves all headers but User-Agent; of the headers only Connection
-- says what is hop-by-hop; and once the Director has returned, those headers are taken off, but for
-- those that ServeHTTP sets, and the client's address is added at the end of X-Forwarded-For.
pub record IsReverseProxy (rp : ReverseProxy) : Type 0 where
  pub keeps_remote_addr : (r : Request) → (rp.original_director r).remote_addr ≡ r.remote_addr
  pub keeps_header :
      (r : Request) (key : Str)
      → key ≢ str "User-Agent"
      → (rp.original_director r).header key ≡ r.header key
  pub named_by_connection :
      (get get' : Str → Str) (key : Str)
      → get (str "Connection") ≡ get' (str "Connection")
      → rp.is_hop_by_hop get key ≡ rp.is_hop_by_hop get' key
  pub takes_off :
      (r : Request) (key : Str)
      → is_set_by_proxy key ≡ false
      → (rp.after_director r).header key
        ≡ (if rp.is_hop_by_hop r.header key then [] else r.header key)
  pub adds_client :
      (r : Request) (ip port : Str)
      → split_host_port r.remote_addr ≡ some (ip, port)
      → (prior : Str) × ((rp.after_director r).header (str "X-Forwarded-For") ≡ prior ++ ip)

unfoldable pub original_proto : Bool → Str
original_proto tls = if tls then str "https" else str "http"

module _ (rp : ReverseProxy) where
  -- The Director that newL7Backend sets, with whether the request came over TLS.
  unfoldable pub director : Bool → Request → Request
  unfolding original_proto set_header
  director tls r =
      set_header (str "X-Forwarded-Proto") (original_proto tls)
        (set_header (str "X-Forwarded-Host") r.host (rp.original_director r))

  -- The request that the backend is sent.
  unfoldable pub outgoing : Bool → Request → Request
  outgoing tls r = rp.after_director (director tls r)
