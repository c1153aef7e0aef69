-- ===== src/Admin/Reload.antt =====
-- A command of the admin API and a reload by SIGHUP, in either order: the listener of the command is
-- looked up in one critical section and written in another.
use go_load_balancer.Prelude.{
  ℕ, ◌≡◌, refl, sym, ◌≢◌, ◌≤◌, ◌<◌, List, [], ◌∷◌, arith, Option-cases, inl, inr, get_elem?, modify,
  All, length, get_elem?-modify_ne,
}
use go_load_balancer.Config.{Config, ListenerConfig, ListenerRef}
use go_load_balancer.Extern.{Env}
use go_load_balancer.Balancer.{
  LoadBalancer, Sort, listeners, build_l7_routes, build_l4_pools, reload_config, allocate,
}
use go_load_balancer.Admin.{Result, commit, settle, through}
use go_load_balancer.Admin.Unique.{Result-cases}
use go_load_balancer.Admin.Commands.{Command, edit, perform, perform-through, IsJustBuilt}

-- A write to a listener that is not among those of the configuration.
listeners-modify :
    (heap : List ListenerConfig) (p : ListenerRef) (f : ListenerConfig → ListenerConfig)
    (ls : List ListenerRef)
    → All (λ l. p ≢ l) ls
    → listeners (modify heap p f) ls ≡ listeners heap ls
unfolding listeners
listeners-modify heap p f [] h = refl
listeners-modify heap p f (l ∷ ls) h =
    ground (arith, get_elem?-modify_ne heap p l f h.0, listeners-modify heap p f ls h.1)

module _ {Cb : Type 0} (env : Env Cb) (sort : Sort Cb) where
  -- The routes and pools that requests meet.
  pub record SameService (lb lb' : LoadBalancer Cb) : Type 0 where
    pub routes : lb'.routes ≡ lb.routes
    pub pools : lb'.l4_pools ≡ lb.l4_pools

  through-stale :
      (p : ListenerRef) (f : ListenerConfig → Result ListenerConfig) (lb : LoadBalancer Cb)
      → All (λ l. p ≢ l) lb.cfg.listeners
      → IsJustBuilt env sort lb
      → SameService lb (through env sort p f lb).0
  unfolding through settle commit reload_config build_l7_routes build_l4_pools
  through-stale p f lb h s = elim (Option-cases (get_elem? lb.heap p)) [
    | inl none_there ↦ rw none_there (record { routes = refl; pools = refl })
    | inr (l, there) ↦ elim (Result-cases (f l)) [
      | inl (e, fails) ↦ rw (there, fails) (record { routes = refl; pools = refl })
      | inr (l', made) ↦
          rw (there, made, listeners-modify lb.heap p (λ _. l') lb.cfg.listeners h)
            (record { routes = sym s.routes; pools = sym s.pools })
    ]
  ]

  behind : (ls : List ListenerRef) (n p : ℕ) → p < n → All (λ l. n ≤ l) ls → All (λ l. p ≢ l) ls
  behind [] n p lt h = tt
  behind (l ∷ ls) n p lt h = ((λ e. omega (arith, lt, h.0, e)), behind ls n p lt h.1)

  -- A listener is looked up, the configuration is loaded anew before the command is carried out, and
  -- the command is carried out: whatever it is and answers, the routes and pools that are served are
  -- those of the reload, without the change.
  pub stale_command_lost :
      (c : Command) (p : ListenerRef) (fresh : List ListenerConfig) (cfg : Config)
      (lb : LoadBalancer Cb)
      → p < length lb.heap
      → All (λ l. length lb.heap ≤ l) cfg.listeners
      → let lb' = reload_config env sort cfg (allocate fresh lb) in
        SameService lb' (perform env sort c p lb').0
  unfolding reload_config allocate
  stale_command_lost c p fresh cfg lb lt h = rw (perform-through env sort c p _) (
      through-stale p (edit c) _ (behind cfg.listeners _ p lt h)
        (record { routes = refl; pools = refl }))
