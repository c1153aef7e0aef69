-- ===== src/TestServer/Examples.antt =====
-- The HTTP server for tests behind the load balancer, with a reverse proxy that takes off what is
-- hop-by-hop and puts "Te: trailers" back.
use go_load_balancer.Prelude.{Bool, ◌||◌, some, none, Option, [], ◌++◌, if◌then◌else◌}
use go_load_balancer.Text.{Str, str, eqs, split_host_port}
use go_load_balancer.Extern.{CbState}
use go_load_balancer.Route.{Request}
use go_load_balancer.Http.{Writer, CacheItem}
use go_load_balancer.Serve.{Exchange}
use go_load_balancer.Forward.{ReverseProxy}
use go_load_balancer.Samples.{Items}

abbrev with_address : Option (Str × Str) → Str → Str
with_address none prior = prior
with_address (some (ip, port)) prior = (prior ++ str ", ") ++ ip

-- The headers that are hop-by-hop by their name, as far as ServeHTTP sets them.
abbrev hop_by_hop : Str → Bool
hop_by_hop key = eqs key (str "Te") || (eqs key (str "Connection") || eqs key (str "Upgrade"))

abbrev te_of : Str → Str
te_of value = if eqs value (str "trailers") then value else []

abbrev reverse_proxy : ReverseProxy
reverse_proxy = record {
  original_director = λ r. record r { query = [] };
  is_hop_by_hop = λ get key. hop_by_hop key || eqs key (get (str "Connection"));
  after_director = λ r. record r {
    header = λ key.
        if eqs key (str "X-Forwarded-For")
        then with_address (split_host_port r.remote_addr) (r.header key)
        else if eqs key (str "Te")
        then te_of (r.header key)
        else if hop_by_hop key || eqs key (r.header (str "Connection"))
        then []
        else r.header key;
  };
}

-- A client that names X-Forwarded-Host in its header Connection.
abbrev request : Request
request = record {
  method = str "GET";
  host = str "example.org";
  path = str "/";
  query = [];
  remote_addr = str "10.0.0.7:5123";
  header = λ key. str "X-Forwarded-Host";
}

abbrev fresh : Writer
fresh = record { headers = []; status = none; body = [] }

abbrev exchange : Exchange CbState (Items CacheItem)
exchange = record {
  pool = record { backends = []; strategy = str "round-robin"; current = 0 };
  cache = none;
}
