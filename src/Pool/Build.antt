-- ===== src/Pool/Build.antt =====
-- NewL4BackendPool of internal/lb/backend.go: what a new pool holds of its configuration.
use mathlib.Core.Logic.Or
use mathlib.Core.HLevel.{⊥_prop}
use mathlib.Core.Option.{some-injective}
use mathlib.Core.List.{
  Mem, Perm, Nodup, Nodup-nil, Nodup-cons, mem-map_of_mem, mem-cons, not-mem-nil, mem-cons_self,
  mem-cons_of_mem,
}
use mathlib.Core.List.Perm
use go_load_balancer.Prelude.{
  ◌≡◌, refl, sym, ◌∙◌, true, Option, none, some, List, [], ◌∷◌, map, arith, Bool-cases, inl, inr,
  if◌then◌else◌,
}
use go_load_balancer.Text.{Str, str, eqs, eqs_iff}
use go_load_balancer.Config.{BackendConfig, CircuitBreakerConfig, ListenerConfig}
use go_load_balancer.Extern.{Env}
use go_load_balancer.Backend.{Backend, set_health, new_l4_backend}
use go_load_balancer.Pool.{put_config, static_backends, build_l4_backends, new_l4_backend_pool}

-- The configuration that a map of backends holds for an address.
pub configured : Str → List BackendConfig → Option BackendConfig
configured addr [] = none
configured addr (b ∷ bs) = let rest = configured addr bs in if eqs b.addr addr then some b else rest

-- The last configuration of an address in a list.
pub last_configured : Str → List BackendConfig → Option BackendConfig
last_configured addr [] = none
last_configured addr (b ∷ bs) = elim (last_configured addr bs) [
  | some c ↦ some c
  | none ↦ if eqs b.addr addr then some b else none
]

configured-put :
    (addr : Str) (bc : BackendConfig) (m : List BackendConfig)
    → configured addr (put_config bc m) ≡ (if eqs bc.addr addr then some bc else configured addr m)
unfolding configured put_config
configured-put addr bc [] = refl
configured-put addr bc (c ∷ m) = ground (
  arith,
  configured-put addr bc m,
  eqs_iff c.addr bc.addr,
  eqs_iff bc.addr addr,
  eqs_iff c.addr addr,
)

configured-static :
    (addr : Str) (m bcs : List BackendConfig)
    → configured addr (static_backends m bcs)
      ≡ elim (last_configured addr bcs) [ none ↦ configured addr m | some c ↦ some c ]
unfolding static_backends last_configured
configured-static addr m [] = refl
configured-static addr m (bc ∷ bcs) =
    ground (arith, configured-static addr (put_config bc m) bcs, configured-put addr bc m)

-- No two entries of one address.
abbrev pub UniqueAddrs : List BackendConfig → Type 0
UniqueAddrs [] = Unit {0}
UniqueAddrs (b ∷ bs) = (configured b.addr bs ≡ none) × UniqueAddrs bs

UniqueAddrs-put :
    (bc : BackendConfig) (m : List BackendConfig) → UniqueAddrs m → UniqueAddrs (put_config bc m)
unfolding put_config configured
UniqueAddrs-put bc [] u = (refl, tt)
UniqueAddrs-put bc (c ∷ m) u = ground (
  arith,
  UniqueAddrs-put bc m u.1,
  configured-put c.addr bc m,
  eqs_iff c.addr bc.addr,
  eqs_iff bc.addr c.addr,
)

UniqueAddrs-static :
    (m bcs : List BackendConfig) → UniqueAddrs m → UniqueAddrs (static_backends m bcs)
unfolding static_backends
UniqueAddrs-static m [] u = u
UniqueAddrs-static m (bc ∷ bcs) u =
    UniqueAddrs-static (put_config bc m) bcs (UniqueAddrs-put bc m u)

-- The map that a pool is built from has one entry for each address of the configuration, the last.
pub static_backends_lem :
    (bcs : List BackendConfig)
    → UniqueAddrs (static_backends [] bcs)
      × ((addr : Str) → configured addr (static_backends [] bcs) ≡ last_configured addr bcs)
unfolding configured
static_backends_lem bcs =
    (UniqueAddrs-static [] bcs tt, λ addr. configured-static addr [] bcs ∙ ground arith)

configured-Mem :
    (addr : Str) (m : List BackendConfig) (bc : BackendConfig)
    → configured addr m ≡ some bc
    → Mem bc m × (bc.addr ≡ addr)
unfolding configured
configured-Mem addr [] bc h = absurd (cc h)
configured-Mem addr (c ∷ m) bc h = elim (Bool-cases (eqs c.addr addr)) [
  | inl hit ↦
      let same : c ≡ bc = some-injective c bc (rw hit at h) in
      (rw same mem-cons_self, rw (← same) ((eqs_iff c.addr addr).0 hit))
  | inr miss ↦
      let (rest, e) = configured-Mem addr m bc (rw miss at h) in (mem-cons_of_mem c rest, e)
]

not-configured :
    (addr : Str) (m : List BackendConfig)
    → configured addr m ≡ none
    → ¬ Mem addr (map (λ b. b.addr) m)
unfolding configured
not-configured addr [] h mem = not-mem-nil mem
not-configured addr (c ∷ m) h mem = elim (Bool-cases (eqs c.addr addr)) [
  | inl hit ↦ cc (rw hit at h)
  | inr miss ↦
      Or.elim ⊥_prop (mem-cons.0 mem) (λ e. cc (miss, (eqs_iff c.addr addr).1 (sym e)))
        (not-configured addr m (rw miss at h))
]

UniqueAddrs-Nodup : (m : List BackendConfig) → UniqueAddrs m → Nodup (map (λ b. b.addr) m)
UniqueAddrs-Nodup [] u = Nodup-nil
UniqueAddrs-Nodup (c ∷ m) u = Nodup-cons.1 (not-configured c.addr m u.0, UniqueAddrs-Nodup m u.1)

module _ {Cb : Type 0} (env : Env Cb) where
  -- A backend as a pool of the listener starts with it.
  pub l4_start : ListenerConfig → Option CircuitBreakerConfig → BackendConfig → Backend Cb
  l4_start l cb_cfg bc =
      if eqs l.protocol (str "udp")
      then set_health true (new_l4_backend env bc cb_cfg)
      else new_l4_backend env bc cb_cfg

  l4_backends-map :
      (l : ListenerConfig) (cb_cfg : Option CircuitBreakerConfig) (bcs : List BackendConfig)
      → (if eqs l.protocol (str "udp")
          then map (set_health true) (build_l4_backends env bcs cb_cfg)
          else build_l4_backends env bcs cb_cfg)
        ≡ map (l4_start l cb_cfg) bcs
  unfolding l4_start build_l4_backends
  l4_backends-map l cb_cfg [] = ground arith
  l4_backends-map l cb_cfg (bc ∷ bcs) = ground (arith, l4_backends-map l cb_cfg bcs)

  l4_addrs :
      (l : ListenerConfig) (cb_cfg : Option CircuitBreakerConfig) (bcs : List BackendConfig)
      → map (λ b. b.addr) (map (l4_start l cb_cfg) bcs) ≡ map (λ b. b.addr) bcs
  unfolding l4_start set_health new_l4_backend
  l4_addrs l cb_cfg [] = refl
  l4_addrs l cb_cfg (bc ∷ bcs) = ground (arith, l4_addrs l cb_cfg bcs)

  -- If `range` over a map visits each entry once, the pool of a listener holds the last
  -- configuration of each of its addresses as a new backend, healthy at once for UDP, holds no two
  -- backends of one address, and nothing else.
  pub l4_pool_holds_configured :
      (l : ListenerConfig) (cb_cfg : Option CircuitBreakerConfig)
      → ((m : List BackendConfig) → Perm (env.order m) m)
      → let p = new_l4_backend_pool env l cb_cfg in
        ((addr : Str) (bc : BackendConfig)
          → last_configured addr l.backends ≡ some bc
          → Mem (l4_start l cb_cfg bc) p.backends × (bc.addr ≡ addr))
        × Nodup (map (λ b. b.addr) p.backends)
        × ((addr : Str)
            → last_configured addr l.backends ≡ none
            → ¬ Mem addr (map (λ b. b.addr) p.backends))
  unfolding new_l4_backend_pool
  l4_pool_holds_configured l cb_cfg perm =
      let m = static_backends [] l.backends in
      let (unique, last) = static_backends_lem l.backends in
      let shape = l4_backends-map l cb_cfg (env.order m) in
      let addrs = l4_addrs l cb_cfg (env.order m) in
      rw (shape, addrs)
        (
          λ addr bc e.
              let (mem, at) = configured-Mem addr m bc (last addr ∙ e) in
              (mem-map_of_mem (l4_start l cb_cfg) ((Perm.mem_iff (perm m)).1 mem), at),
          Perm.nodup (Perm.symm (Perm.map (λ b. b.addr) (perm m))) (UniqueAddrs-Nodup m unique),
          λ addr e mem.
              not-configured addr m (last addr ∙ e)
                ((Perm.mem_iff (Perm.map (λ b. b.addr) (perm m))).0 mem),
        )
