-- ===== src/Samples.antt =====
-- A configuration at which the examples run: breakers that are their own states and never trip, an
-- HTTP listener with two routes, and one for TCP.
pub mod Store
use go_load_balancer.Prelude.{
  ◌≡◌, ◌≢◌, ◌≤◌, ◌<◌, ◌+◌, refl, Option, some, if◌then◌else◌, ◌^◌, ◌/◌, ◌==◌, ltb, arith, ℕ, true,
  none, List, [], ◌∷◌,
}
use go_load_balancer.Prelude.Int.{pos, pos_part}
use go_load_balancer.Text.{Str, str, eqs, eqs_iff}
use go_load_balancer.Config.{Config, ListenerConfig, RouteConfig, BackendConfig}
use go_load_balancer.Extern.{CbState, closed, Env, FloatOps, IsFloat}
use go_load_balancer.Http.{GoCache, IsGoCache}
use go_load_balancer.Route.Order.{insertion_sort}
use go_load_balancer.Balancer.{LoadBalancer, Sort, new_load_balancer}

abbrev pub env : Env CbState
env = record {
  breakers = record {
    new = λ s. closed;
    state = λ c. c;
    admit = λ c. (none, c);
    settle = λ success c. c;
  };
  parses = λ s. true;
  order = λ l. l;
}

abbrev pub sort : Sort CbState
sort = insertion_sort

abbrev pub server : Str → BackendConfig
server addr = record { addr = addr; weight = pos 1 }

abbrev pub route : Str → Str → List BackendConfig → RouteConfig
route host path bs = record {
  host = host;
  path = path;
  headers = [];
  strategy = str "round-robin";
  backends = bs;
}

abbrev pub web : ListenerConfig
web = record {
  name = str "web";
  protocol = str "http";
  listen_addr = str ":8080";
  tls = none;
  autocert = none;
  rate_limit = none;
  cache = none;
  routes =
      route [] (str "/") (server (str "a:1") ∷ server (str "b:1") ∷ [])
      ∷ route [] (str "/api") (server (str "c:1") ∷ [])
      ∷ [];
  strategy = [];
  backends = [];
}

abbrev pub postgres : ListenerConfig
postgres = record {
  name = str "postgres";
  protocol = str "tcp";
  listen_addr = str ":5432";
  tls = none;
  autocert = none;
  rate_limit = none;
  cache = none;
  routes = [];
  strategy = str "least-connections";
  backends = server (str "d:1") ∷ server (str "e:1") ∷ server (str "d:1") ∷ [];
}

abbrev pub heap : List ListenerConfig
heap = web ∷ postgres ∷ []

abbrev pub config : List ℕ → Config
config refs = record {
  listeners = refs;
  metrics_addr = [];
  admin_addr = [];
  admin_token = str "secret";
  circuit_breaker = none;
  connection_pool = none;
  redis = none;
}

abbrev pub started : LoadBalancer CbState
started = new_load_balancer env sort heap (config (0 ∷ 1 ∷ []))

-- Floats that are whole numbers.
abbrev pub whole : FloatOps
whole = record {
  inf = 2 ^ 64;
  of_uint = λ n. n;
  of_int = pos_part;
  to_int = pos;
  is_zero = λ n. n == 0;
  one = 1;
  div = λ a b. a / b;
  lt = ltb;
}

pub whole-IsFloat : IsFloat whole
whole-IsFloat = record {
  lt_irrefl = λ a. ground arith;
  lt_trans = λ a b c h k. ground arith;
  quotient_one = λ c h. ground arith;
  quotient_int = λ c w h k. ground arith;
}

-- A cache that is a function from keys to items with the times at which they are gone.
abbrev pub Items : Type 0 → Type 0
Items V = Str → Option (ℕ × V)

abbrev unexpired : {V : Type 0} → ℕ → Option (ℕ × V) → Option V
unexpired t none = none
unexpired t (some (until, item)) = if ltb t until then some item else none

abbrev pub items : {V : Type 0} → GoCache V (Items V)
items = record {
  ttl = 60;
  get = λ t key k. unexpired t (k key);
  set = λ t key item k other. if eqs other key then some (t + 60, item) else k other;
  flush = λ k key. none;
}

pub items-IsGoCache : {V : Type 0} → IsGoCache (items {V = V})
items-IsGoCache = record {
  hit = λ t key item k t' from until. ground (arith, eqs_iff key key);
  others = λ t key item k t' other differ. ground (arith, eqs_iff other key);
  flushed = λ t key k. refl;
}
