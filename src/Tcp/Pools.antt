-- ===== src/Tcp/Pools.antt =====
-- The pool that NewTcpProxy and NewUDPProxy find, of those that buildL4Pools of
-- internal/lb/loadbalancer.go has built.
use go_load_balancer.Prelude.{
  ◌≡◌, refl, ◌∙◌, Bool, true, false, ◌&&◌, Option, none, some, List, [], ◌∷◌, arith, if◌then◌else◌,
}
use go_load_balancer.Text.{Str, eqs, eqs_iff}
use go_load_balancer.Config.{Config, ListenerConfig}
use go_load_balancer.Extern.{Env}
use go_load_balancer.Backend.{BackendPool}
use go_load_balancer.Pool.{new_l4_backend_pool}
use go_load_balancer.Balancer.{Sort, listeners, is_l4, put_pool, l4_pools_from, build_l4_pools}
use go_load_balancer.Tcp.{lookup_pool}

lookup-put_pool :
    {P : Type 0} (name other : Str) (p : P) (m : List (Str × P))
    → lookup_pool other (put_pool name p m)
      ≡ (if eqs name other then some p else lookup_pool other m)
unfolding lookup_pool put_pool
lookup-put_pool name other p [] = refl
lookup-put_pool name other p ((n, q) ∷ m) =
    ground
      (arith, eqs_iff n name, eqs_iff n other, eqs_iff name other, lookup-put_pool name other p m)

-- The last TCP or UDP listener of a name.
abbrev pub last_l4 : Str → List ListenerConfig → Option ListenerConfig
last_l4 name [] = none
last_l4 name (l ∷ ls) = elim (last_l4 name ls) [
  | some later ↦ some later
  | none ↦ if is_l4 l && eqs l.name name then some l else none
]

module _ {Cb : Type 0} (env : Env Cb) (sort : Sort Cb) (cfg : Config) (name : Str) where
  -- The pool of a listener that is found, or else one from before.
  abbrev pub pool_or : Option (BackendPool Cb) → Option ListenerConfig → Option (BackendPool Cb)
  pool_or before none = before
  pool_or before (some l) = some (new_l4_backend_pool env l cfg.circuit_breaker)

  found :
      (pools : List (Str × BackendPool Cb)) (later : Option ListenerConfig) (l : ListenerConfig)
      (here : Bool)
      → pool_or
          (if here
            then some (new_l4_backend_pool env l cfg.circuit_breaker)
            else lookup_pool name pools)
          later
        ≡ pool_or
            (lookup_pool name pools)
            (elim later [ some c ↦ some c | none ↦ if here then some l else none ])
  found pools none l true = refl
  found pools none l false = refl
  found pools (some c) l here = refl

  skipped :
      (pools : List (Str × BackendPool Cb)) (later : Option ListenerConfig)
      → pool_or (lookup_pool name pools) later
        ≡ pool_or (lookup_pool name pools) (elim later [ some c ↦ some c | none ↦ none ])
  skipped pools none = refl
  skipped pools (some c) = refl

  one_more :
      (pools : List (Str × BackendPool Cb)) (later : Option ListenerConfig) (l : ListenerConfig)
      (l4 : Bool)
      → pool_or
          (lookup_pool name (
            if l4
            then put_pool l.name (new_l4_backend_pool env l cfg.circuit_breaker) pools
            else pools))
          later
        ≡ pool_or
            (lookup_pool name pools)
            (elim later [ some c ↦ some c | none ↦ if l4 && eqs l.name name then some l else none ])
  one_more pools later l true =
      rw (lookup-put_pool l.name name (new_l4_backend_pool env l cfg.circuit_breaker) pools)
        (found pools later l (eqs l.name name))
  one_more pools later l false = skipped pools later

  lookup-l4_pools_from :
      (pools : List (Str × BackendPool Cb)) (ls : List ListenerConfig)
      → lookup_pool name (l4_pools_from env sort cfg pools ls)
        ≡ pool_or (lookup_pool name pools) (last_l4 name ls)
  unfolding l4_pools_from
  lookup-l4_pools_from pools [] = refl
  lookup-l4_pools_from pools (l ∷ ls) =
      lookup-l4_pools_from
        (if is_l4 l
          then put_pool l.name (new_l4_backend_pool env l cfg.circuit_breaker) pools
          else pools)
        ls
      ∙ one_more pools (last_l4 name ls) l (is_l4 l)

  -- The pool of a name is built from the last TCP or UDP listener of that name, and there is none if
  -- there is no such listener.
  pub build_l4_pools_lem :
      (heap : List ListenerConfig)
      → lookup_pool name (build_l4_pools env sort heap cfg)
        ≡ pool_or none (last_l4 name (listeners heap cfg.listeners))
  unfolding build_l4_pools lookup_pool
  build_l4_pools_lem heap = lookup-l4_pools_from [] (listeners heap cfg.listeners)
