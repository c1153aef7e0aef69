-- ===== src/Main/Reloads.antt =====
-- The TCP and UDP proxies of cmd/lb/main.go, which get their pools when they start, against the pools
-- that a reload builds.
use go_load_balancer.Prelude.{
  ◌≡◌, refl, ◌∙◌, ap, Bool, true, false, Option, none, some, List, [], ◌∷◌, ◌++◌, ℕ, All,
  All-append, Bool-cases, inl, inr, ◌&&◌,
}
use go_load_balancer.Text.{Str, str, eqs}
use go_load_balancer.Config.{Config, ListenerConfig}
use go_load_balancer.Extern.{Env}
use go_load_balancer.Backend.{BackendPool}
use go_load_balancer.Balancer.{
  Sort, is_l7, listeners, allocate, build_l4_pools, reload_config, new_load_balancer,
}
use go_load_balancer.Http.{GoCache}
use go_load_balancer.Tcp.{TcpProxy, lookup_pool, on_l4_pool, new_tcp_proxy}
use go_load_balancer.Udp.{UdpProxy, on_udp_pool, new_udp_proxy}
use go_load_balancer.Main.{
  Program, Loaded, Sockets, of_option, start_listener, start_listeners, start_program, on_sighup,
  on_sighups,
}

module _ {Cb K : Type 0} (env : Env Cb) (sort : Sort Cb) (sessions : GoCache ℕ K)
    (secure insecure : List (Str × ℕ)) (sockets : Sockets K) where
  module _ (pools : List (Str × BackendPool Cb)) where
    -- A proxy's pool is that of its listener among `pools`.
    abbrev TcpServes : TcpProxy Cb → Type 0
    TcpServes x = some x.pool ≡ lookup_pool x.listener_name pools

    abbrev UdpServes : UdpProxy Cb K → Type 0
    UdpServes x = some x.pool ≡ lookup_pool x.listener_name pools

    abbrev Serves : Program Cb K → Type 0
    Serves p = All TcpServes p.tcp_proxies × All UdpServes p.udp_proxies

    on_l4_pool-Serves :
        (listens : Bool) (name : Str) (found : Option (BackendPool Cb))
        → found ≡ lookup_pool name pools
        → All TcpServes (of_option (on_l4_pool listens name found))
    unfolding on_l4_pool of_option
    on_l4_pool-Serves listens name none h = tt
    on_l4_pool-Serves true name (some p) h = (h, tt)
    on_l4_pool-Serves false name (some p) h = tt

    on_udp_pool-Serves :
        (listens : Bool) (k : K) (name : Str) (found : Option (BackendPool Cb))
        → found ≡ lookup_pool name pools
        → All UdpServes (of_option (on_udp_pool sessions listens k name found))
    unfolding on_udp_pool of_option
    on_udp_pool-Serves listens k name none h = tt
    on_udp_pool-Serves true k name (some p) h = (h, tt)
    on_udp_pool-Serves false k name (some p) h = tt

    start_listener-Serves :
        (l : ListenerConfig) (p : Program Cb K)
        → p.balancer.l4_pools ≡ pools
        → Serves p
        → Serves (start_listener env sort sessions secure insecure sockets l p)
          × ((start_listener env sort sessions secure insecure sockets l p).balancer ≡ p.balancer)
    unfolding start_listener new_tcp_proxy new_udp_proxy
    start_listener-Serves l p same (tcp, udp) =
        let found = ap (lookup_pool l.name) same in
        elim (Bool-cases (is_l7 l)) [
          | inl http ↦ rw http ((tcp, udp), refl)
          | inr other ↦ elim (Bool-cases (eqs l.protocol (str "tcp"))) [
            | inl t ↦
                rw (other, t)
                  (
                    (
                      All-append TcpServes _ _ tcp
                          (on_l4_pool-Serves (sockets.listens_tcp l.listen_addr) l.name _ found),
                      udp,
                    ),
                    refl,
                  )
            | inr not_tcp ↦ elim (Bool-cases (eqs l.protocol (str "udp"))) [
              | inl u ↦
                  rw (other, not_tcp, u)
                    (
                      (
                        tcp,
                        All-append UdpServes _ _ udp (
                            on_udp_pool-Serves
                              (sockets.resolves_udp l.listen_addr
                                && sockets.listens_udp l.listen_addr)
                              sockets.new_sessions l.name _ found),
                      ),
                      refl,
                    )
              | inr not_udp ↦ rw (other, not_tcp, not_udp) ((tcp, udp), refl)
            ]
          ]
        ]

    start_listeners-Serves :
        (ls : List ListenerConfig) (p : Program Cb K)
        → p.balancer.l4_pools ≡ pools
        → Serves p
        → Serves (start_listeners env sort sessions secure insecure sockets ls p)
    unfolding start_listeners
    start_listeners-Serves [] p same serves = serves
    start_listeners-Serves (l ∷ ls) p same serves =
        let (next, balancer) = start_listener-Serves l p same serves in
        start_listeners-Serves ls (start_listener env sort sessions secure insecure sockets l p)
          (ap (λ b. b.l4_pools) balancer ∙ same) next

    on_sighups-Serves :
        (loads : List Loaded) (p : Program Cb K)
        → Serves p
        → Serves (on_sighups env sort sessions secure insecure sockets loads p)
    unfolding on_sighups on_sighup
    on_sighups-Serves [] p serves = serves
    on_sighups-Serves (inl error ∷ loads) p serves = on_sighups-Serves loads p serves
    on_sighups-Serves (inr (ls, cfg) ∷ loads) p serves =
        on_sighups-Serves loads
          (on_sighup env sort sessions secure insecure sockets (inr (ls, cfg)) p) serves

  -- The program has started with a configuration, and any SIGHUPs have come, of which the last has
  -- loaded another: the load balancer has the pools of the TCP and UDP listeners that the other
  -- configures, but every TCP or UDP proxy that runs still has the pool that was built for its listener
  -- at the start.
  pub proxies_keep_start_pools :
      (heap : List ListenerConfig) (cfg : Config) (loads : List Loaded) (ls : List ListenerConfig)
      (cfg' : Config)
      → let before =
          on_sighups env sort sessions secure insecure sockets loads
            (start_program env sort sessions secure insecure sockets heap cfg) in
        let now = on_sighup env sort sessions secure insecure sockets (inr (ls, cfg')) before in
        let at_start = build_l4_pools env sort heap cfg in
        (now.balancer.l4_pools ≡ build_l4_pools env sort (before.balancer.heap ++ ls) cfg')
        × All (λ x. some x.pool ≡ lookup_pool x.listener_name at_start) now.tcp_proxies
        × All (λ x. some x.pool ≡ lookup_pool x.listener_name at_start) now.udp_proxies
  unfolding start_program on_sighup reload_config allocate new_load_balancer
  proxies_keep_start_pools heap cfg loads ls cfg' =
      let (tcp, udp) =
        on_sighups-Serves (build_l4_pools env sort heap cfg) loads
          (start_program env sort sessions secure insecure sockets heap cfg)
          (start_listeners-Serves (build_l4_pools env sort heap cfg) (listeners heap cfg.listeners)
            _ refl (tt, tt)) in
      (refl, tcp, udp)
