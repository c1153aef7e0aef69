-- ===== src/Balancer.antt =====
-- internal/lb/loadbalancer.go: the load balancer's state, how its routes and pools are built from a
-- configuration, and how it starts and reloads. The children prove which route serves a request, and
-- what a reload leaves of the backends.
-- A method that holds the lock is one step. The heap holds the listeners that *ListenerConfig points
-- to: a configuration names them by position, and a listener that was read before a reload stays
-- where it is.
pub mod Choice
pub mod Configured
pub mod Fresh
mod Examples
use go_load_balancer.Prelude.{
  ℕ, suc, ◌+◌, Bool, true, false, not, ◌&&◌, ◌||◌, Option, none, some, List, [], ◌∷◌, ◌++◌, map,
  ltb, leb, ◌==◌, if◌then◌else◌, length, get_elem?, modify, take, drop,
}
use go_load_balancer.Prelude.Int.{ℤ, pos, negsuc, ltb_ℤ, pos_part}
use go_load_balancer.Text.{Str, str, eqs}
use go_load_balancer.Config.{Config, ListenerConfig, ListenerRef, RouteConfig, BackendConfig}
use go_load_balancer.Extern.{Env}
use go_load_balancer.Backend.{BackendPool}
use go_load_balancer.Pool.{new_l7_backend_pool, new_l4_backend_pool}
use go_load_balancer.Route.{Route, before}

-- The fields of a LoadBalancer that a reload writes, and the heap. The rate limiter and the cache
-- are set once, at the start, and are not kept here.
pub record LoadBalancer (Cb : Type 0) : Type 0 where
  pub heap : List ListenerConfig
  pub cfg : Config
  pub routes : List (Route Cb)
  pub l4_pools : List (Str × BackendPool Cb)

-- The listeners of a configuration.
unfoldable pub listeners : List ListenerConfig → List ListenerRef → List ListenerConfig
listeners heap [] = []
listeners heap (l ∷ ls) = elim (get_elem? heap l) [
  | none ↦ listeners heap ls
  | some c ↦ c ∷ listeners heap ls
]

-- l.Protocol == "http" || l.Protocol == "https"
unfoldable pub is_l7 : ListenerConfig → Bool
is_l7 l = eqs l.protocol (str "http") || eqs l.protocol (str "https")

unfoldable pub is_l4 : ListenerConfig → Bool
is_l4 l = eqs l.protocol (str "tcp") || eqs l.protocol (str "udp")

-- pools[name] = pool
unfoldable pub put_pool : {P : Type 0} → Str → P → List (Str × P) → List (Str × P)
put_pool name p [] = (name, p) ∷ []
put_pool name p ((n, q) ∷ m) = if eqs n name then (name, p) ∷ m else (n, q) ∷ put_pool name p m

-- sort.Slice on routes, with the function that compares two of them.
abbrev pub Sort : Type 0 → Type 0
Sort Cb = (Route Cb → Route Cb → Bool) → List (Route Cb) → List (Route Cb)

-- The function that buildL7Routes hands to it.
abbrev pub less : {Cb : Type 0} → Route Cb → Route Cb → Bool
less r1 r2 = before r1.config r2.config

module _ {Cb : Type 0} (env : Env Cb) (sort : Sort Cb) where
  unfoldable pub routes_of : Config → List RouteConfig → List (Route Cb)
  routes_of cfg [] = []
  routes_of cfg (rc ∷ rcs) =
      record { config = rc; pool = new_l7_backend_pool env rc cfg.circuit_breaker }
      ∷ routes_of cfg rcs

  unfoldable pub unsorted_routes : Config → List ListenerConfig → List (Route Cb)
  unsorted_routes cfg [] = []
  unsorted_routes cfg (l ∷ ls) =
      let rest = unsorted_routes cfg ls in if is_l7 l then routes_of cfg l.routes ++ rest else rest

  unfoldable pub build_l7_routes : List ListenerConfig → Config → List (Route Cb)
  build_l7_routes heap cfg = sort less (unsorted_routes cfg (listeners heap cfg.listeners))

  unfoldable pub l4_pools_from :
      Config → List (Str × BackendPool Cb) → List ListenerConfig → List (Str × BackendPool Cb)
  l4_pools_from cfg pools [] = pools
  l4_pools_from cfg pools (l ∷ ls) =
      l4_pools_from cfg
        (if is_l4 l
          then put_pool l.name (new_l4_backend_pool env l cfg.circuit_breaker) pools
          else pools)
        ls

  unfoldable pub build_l4_pools : List ListenerConfig → Config → List (Str × BackendPool Cb)
  build_l4_pools heap cfg = l4_pools_from cfg [] (listeners heap cfg.listeners)

  unfoldable pub reload_config : Config → LoadBalancer Cb → LoadBalancer Cb
  reload_config cfg lb = record lb {
    cfg = cfg;
    routes = build_l7_routes lb.heap cfg;
    l4_pools = build_l4_pools lb.heap cfg;
  }

  -- NewLoadBalancer, without the rate limiter and the cache.
  unfoldable pub new_load_balancer : List ListenerConfig → Config → LoadBalancer Cb
  new_load_balancer heap cfg = record {
    heap = heap;
    cfg = cfg;
    routes = build_l7_routes heap cfg;
    l4_pools = build_l4_pools heap cfg;
  }

-- The listeners that LoadConfig allocates stand behind those of the heap.
unfoldable pub allocate : {Cb : Type 0} → List ListenerConfig → LoadBalancer Cb → LoadBalancer Cb
allocate ls lb = record lb { heap = lb.heap ++ ls }
