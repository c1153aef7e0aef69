-- ===== src/Pool/Fresh.antt =====
-- How the backends of a newly built pool of internal/lb/backend.go start.
use go_load_balancer.Prelude.{
  ◌<◌, ◌≡◌, refl, true, false, Option, List, [], ◌∷◌, map, arith, Bool-cases, inl, inr, All,
}
use go_load_balancer.Prelude.Int.{ℤ, pos, pos_part, neg_part}
use go_load_balancer.Text.{str, eqs}
use go_load_balancer.Config.{BackendConfig, CircuitBreakerConfig, RouteConfig, ListenerConfig}
use go_load_balancer.Extern.{Env}
use go_load_balancer.Backend.{Backend, set_health, new_l4_backend, new_l7_backend, default_weight}
use go_load_balancer.Pool.{
  keep_l7, build_l7_backends, build_l4_backends, new_l7_backend_pool, new_l4_backend_pool,
}

default_weight-positive :
    (w : ℤ) → (neg_part (default_weight w) ≡ 0) × (0 < pos_part (default_weight w))
unfolding default_weight
default_weight-positive w = ground arith

module _ {Cb : Type 0} where
  -- A weight above zero, no current weight and no connection yet.
  pub record IsNew (b : Backend Cb) : Type 0 where
    pub sign : neg_part b.weight ≡ 0
    pub weight : 0 < pos_part b.weight
    pub gathered : b.current_weight ≡ pos 0
    pub idle : b.connections ≡ 0

  -- And not healthy.
  pub record IsDown (b : Backend Cb) : Type 0 where
    pub fresh : IsNew b
    pub down : b.healthy ≡ false

  set_health-IsNew : (bs : List (Backend Cb)) → All IsDown bs → All IsNew (map (set_health true) bs)
  unfolding set_health
  set_health-IsNew [] h = tt
  set_health-IsNew (b ∷ bs) h = (
    record {
      sign = h.0.fresh.sign;
      weight = h.0.fresh.weight;
      gathered = h.0.fresh.gathered;
      idle = h.0.fresh.idle;
    },
    set_health-IsNew bs h.1,
  )

  All-IsNew : (bs : List (Backend Cb)) → All IsDown bs → All IsNew bs
  All-IsNew [] h = tt
  All-IsNew (b ∷ bs) h = (h.0.fresh, All-IsNew bs h.1)

module _ {Cb : Type 0} (env : Env Cb) (cb_cfg : Option CircuitBreakerConfig) where
  new_l4_backend-IsDown : (bc : BackendConfig) → IsDown (new_l4_backend env bc cb_cfg)
  unfolding new_l4_backend
  new_l4_backend-IsDown bc = record {
    fresh = record {
      sign = (default_weight-positive bc.weight).0;
      weight = (default_weight-positive bc.weight).1;
      gathered = refl;
      idle = refl;
    };
    down = refl;
  }

  build_l4_backends-IsDown :
      (bcs : List BackendConfig) → All IsDown (build_l4_backends env bcs cb_cfg)
  unfolding build_l4_backends
  build_l4_backends-IsDown [] = tt
  build_l4_backends-IsDown (bc ∷ bcs) = (new_l4_backend-IsDown bc, build_l4_backends-IsDown bcs)

  keep_l7-IsDown :
      (bc : BackendConfig) (bs : List (Backend Cb))
      → All IsDown bs
      → All IsDown (keep_l7 env (new_l7_backend env bc cb_cfg) bs)
  unfolding keep_l7 new_l7_backend new_l4_backend
  keep_l7-IsDown bc bs h = elim (Bool-cases (env.parses bc.addr)) [
    | inl parses ↦ rw parses (new_l4_backend-IsDown bc, h)
    | inr fails ↦ rw fails h
  ]

  build_l7_backends-IsDown :
      (bcs : List BackendConfig) → All IsDown (build_l7_backends env bcs cb_cfg)
  unfolding build_l7_backends
  build_l7_backends-IsDown [] = tt
  build_l7_backends-IsDown (bc ∷ bcs) = keep_l7-IsDown bc _ (build_l7_backends-IsDown bcs)

  -- Whatever weights the configuration gives, the backends of a new pool of a route have a weight
  -- above zero, no current weight and no connections, and none is healthy.
  pub new_l7_backend_pool-IsDown :
      (r : RouteConfig) → All IsDown (new_l7_backend_pool env r cb_cfg).backends
  unfolding new_l7_backend_pool
  new_l7_backend_pool-IsDown r = build_l7_backends-IsDown _

  -- So have those of a listener, whose health depends on the protocol.
  pub new_l4_backend_pool-IsNew :
      (l : ListenerConfig) → All IsNew (new_l4_backend_pool env l cb_cfg).backends
  unfolding new_l4_backend_pool
  new_l4_backend_pool-IsNew l = elim (Bool-cases (eqs l.protocol (str "udp"))) [
    | inl udp ↦ rw udp (set_health-IsNew _ (build_l4_backends-IsDown _))
    | inr other ↦ rw other (All-IsNew _ (build_l4_backends-IsDown _))
  ]
