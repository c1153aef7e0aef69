-- ===== src/Admin/Reach.antt =====
-- The states of a load balancer of internal/lb/loadbalancer.go: its start, the commands of the admin API
-- and the reloads by SIGHUP in any order, and between them the requests and the health checks, which
-- change the pools.
use go_load_balancer.Prelude.{ℕ, ◌≡◌, inl, inr, some, List, get_elem?, modify, Option-cases}
use go_load_balancer.Text.{Str}
use go_load_balancer.Config.{Config, ListenerConfig, ListenerRef}
use go_load_balancer.Extern.{Env}
use go_load_balancer.Backend.{BackendPool}
use go_load_balancer.Route.{Route}
use go_load_balancer.Route.Order.{IsSort}
use go_load_balancer.Balancer.{LoadBalancer, Sort, reload_config, new_load_balancer, allocate}
use go_load_balancer.Admin.{through, settle, commit, Result}
use go_load_balancer.Admin.Unique.{Result-cases}
use go_load_balancer.Admin.Commands.{Command, edit, perform, perform-through}
use go_load_balancer.Balancer.Configured.{
  Follows, with_pool, map-with_pool, strategies-with_pool, reload-Follows,
}

module _ {Cb : Type 0} (env : Env Cb) (sort : Sort Cb) where
  through-Follows :
      IsSort sort
      → (p : ListenerRef) (f : ListenerConfig → Result ListenerConfig) (lb : LoadBalancer Cb)
      → Follows lb
      → Follows (through env sort p f lb).0
  unfolding through settle commit
  through-Follows laws p f lb s = elim (Option-cases (get_elem? lb.heap p)) [
    | inl none_there ↦ rw none_there s
    | inr (l, there) ↦ elim (Result-cases (f l)) [
      | inl (e, fails) ↦ rw (there, fails) s
      | inr (l', made) ↦ rw (there, made) (reload-Follows env sort laws lb.cfg _)
    ]
  ]

  -- One step: a command through some pointer, whatever it answers; a reload of a configuration whose
  -- listeners have been allocated; what requests and health checks make of the pool of a route, which
  -- keeps its strategy; or what connections make of the TCP and UDP pools.
  pub data Step : LoadBalancer Cb → LoadBalancer Cb → Type 0 where
    commanded :
        {lb : LoadBalancer Cb} (c : Command) (p : ListenerRef) → Step lb (perform env sort c p lb).0
    reloaded :
        {lb : LoadBalancer Cb} (fresh : List ListenerConfig) (cfg : Config)
        → Step lb (reload_config env sort cfg (allocate fresh lb))
    served :
        {lb : LoadBalancer Cb} (i : ℕ) (c : Route Cb) (p : BackendPool Cb)
        → get_elem? lb.routes i ≡ some c
        → p.strategy ≡ c.pool.strategy
        → Step lb (record lb { routes = modify lb.routes i (with_pool p) })
    connected :
        {lb : LoadBalancer Cb} (pools : List (Str × BackendPool Cb))
        → Step lb (record lb { l4_pools = pools })

  pub data Reach : LoadBalancer Cb → Type 0 where
    started :
        (heap : List ListenerConfig) (cfg : Config) → Reach (new_load_balancer env sort heap cfg)
    after : {lb lb' : LoadBalancer Cb} → Reach lb → Step lb lb' → Reach lb'

  Step-Follows : IsSort sort → {lb lb' : LoadBalancer Cb} → Step lb lb' → Follows lb → Follows lb'
  Step-Follows laws {lb} (commanded c p) s =
      rw (perform-through env sort c p lb) (through-Follows laws p (edit c) lb s)
  Step-Follows laws {lb} (reloaded fresh cfg) s =
      reload-Follows env sort laws cfg (allocate fresh lb)
  Step-Follows laws {lb} (served i c p there keeps) s = record {
    same = rw (map-with_pool lb.routes i p) s.same;
    ordered = rw (map-with_pool lb.routes i p) s.ordered;
    strategies = strategies-with_pool lb.routes i c p there keeps s.strategies;
  }
  Step-Follows laws (connected pools) s = record {
    same = s.same;
    ordered = s.ordered;
    strategies = s.strategies;
  }

  start-Follows :
      IsSort sort
      → (heap : List ListenerConfig) (cfg : Config) → Follows (new_load_balancer env sort heap cfg)
  unfolding new_load_balancer reload_config
  start-Follows laws heap cfg =
      let s = reload-Follows env sort laws cfg (new_load_balancer env sort heap cfg) in
      record { same = s.same; ordered = s.ordered; strategies = s.strategies }

  -- In every state that is reached from the start by commands, also through pointers to listeners that
  -- are no longer in use, by reloads, and by what requests, connections and health checks make of the
  -- pools, in any order: the routes that are served are exactly those of the HTTP and HTTPS listeners
  -- of the configuration, in the order of their precedence, and the pool of each has its strategy. The
  -- sort is one that sorts, and no route of a listener or a command has a null among its backends.
  pub reached_routes_are_configured : IsSort sort → {lb : LoadBalancer Cb} → Reach lb → Follows lb
  reached_routes_are_configured laws (started heap cfg) = start-Follows laws heap cfg
  reached_routes_are_configured laws (after r step) =
      Step-Follows laws step (reached_routes_are_configured laws r)
