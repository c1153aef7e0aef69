-- ===== src/Admin/Distinct.antt =====
-- What a listener without duplicate routes and backends is, and how the list operations of the admin
-- helper methods of internal/lb/loadbalancer.go keep it so.
use go_load_balancer.Prelude.{
  ℕ, zero, suc, ◌≡◌, refl, ◌∙◌, false, List, [], ◌∷◌, ◌++◌, arith, modify, take, drop, All,
}
use go_load_balancer.Prelude.Int.{ℤ}
use go_load_balancer.Text.{Str, eqs, eqs_iff}
use go_load_balancer.Config.{ListenerConfig, RouteConfig, BackendConfig}
use go_load_balancer.Admin.{has_route, has_backend, without_backend, with_weight, set_backends}

abbrev pub UniqueBackends : List BackendConfig → Type 0
UniqueBackends [] = Unit {0}
UniqueBackends (b ∷ bs) = (has_backend b.addr bs ≡ false) × UniqueBackends bs

abbrev UniqueRoutes : List RouteConfig → Type 0
UniqueRoutes [] = Unit {0}
UniqueRoutes (r ∷ rs) = (has_route r rs ≡ false) × UniqueRoutes rs

pub record IsUnique (l : ListenerConfig) : Type 0 where
  pub routes : UniqueRoutes l.routes
  pub backends : All (λ r. UniqueBackends r.backends) l.routes

has_backend-append :
    (addr : Str) (bs : List BackendConfig) (new : BackendConfig)
    → has_backend addr bs ≡ false
    → eqs new.addr addr ≡ false
    → has_backend addr (bs ++ new ∷ []) ≡ false
unfolding has_backend
has_backend-append addr [] new h k = ground arith
has_backend-append addr (b ∷ bs) new h k = ground (arith, has_backend-append addr bs new)

pub UniqueBackends-append :
    (bs : List BackendConfig) (new : BackendConfig)
    → UniqueBackends bs
    → has_backend new.addr bs ≡ false
    → UniqueBackends (bs ++ new ∷ [])
unfolding has_backend
UniqueBackends-append [] new u h = (refl, tt)
UniqueBackends-append (b ∷ bs) new u h = ground (
  arith,
  UniqueBackends-append bs new,
  has_backend-append b.addr bs new,
  eqs_iff b.addr new.addr,
  eqs_iff new.addr b.addr,
)

has_backend-without :
    (addr host : Str) (bs : List BackendConfig)
    → has_backend addr bs ≡ false
    → has_backend addr (without_backend host bs) ≡ false
unfolding has_backend without_backend
has_backend-without addr host [] h = refl
has_backend-without addr host (b ∷ bs) h = ground (arith, has_backend-without addr host bs)

pub UniqueBackends-without :
    (host : Str) (bs : List BackendConfig)
    → UniqueBackends bs
    → UniqueBackends (without_backend host bs)
unfolding without_backend
UniqueBackends-without host [] u = tt
UniqueBackends-without host (b ∷ bs) u =
    ground (arith, UniqueBackends-without host bs u.1, has_backend-without b.addr host bs u.0)

has_backend-with_weight :
    (addr host : Str) (w : ℤ) (bs : List BackendConfig)
    → has_backend addr (with_weight host w bs) ≡ has_backend addr bs
unfolding has_backend with_weight
has_backend-with_weight addr host w [] = refl
has_backend-with_weight addr host w (b ∷ bs) =
    ground (arith, has_backend-with_weight addr host w bs)

pub UniqueBackends-with_weight :
    (host : Str) (w : ℤ) (bs : List BackendConfig)
    → UniqueBackends bs
    → UniqueBackends (with_weight host w bs)
unfolding with_weight
UniqueBackends-with_weight host w [] u = tt
UniqueBackends-with_weight host w (b ∷ bs) u =
    ground
      (arith, UniqueBackends-with_weight host w bs u.1, has_backend-with_weight b.addr host w bs)

has_route-append :
    (r : RouteConfig) (rs : List RouteConfig) (new : RouteConfig)
    → has_route r rs ≡ false
    → has_route r (new ∷ []) ≡ false
    → has_route r (rs ++ new ∷ []) ≡ false
unfolding has_route
has_route-append r [] new h k = k
has_route-append r (s ∷ rs) new h k = ground (arith, has_route-append r rs new)

pub UniqueRoutes-append :
    (rs : List RouteConfig) (new : RouteConfig)
    → UniqueRoutes rs
    → has_route new rs ≡ false
    → UniqueRoutes (rs ++ new ∷ [])
unfolding has_route
UniqueRoutes-append [] new u h = (refl, tt)
UniqueRoutes-append (r ∷ rs) new u h = ground (
  arith,
  UniqueRoutes-append rs new,
  has_route-append r rs new,
  eqs_iff r.path new.path,
  eqs_iff new.path r.path,
  eqs_iff r.host new.host,
  eqs_iff new.host r.host,
)

has_route-removed :
    (r : RouteConfig) (i : ℕ) (rs : List RouteConfig)
    → has_route r rs ≡ false
    → has_route r (take i rs ++ drop (suc i) rs) ≡ false
unfolding has_route
has_route-removed r zero [] h = refl
has_route-removed r (suc i) [] h = refl
has_route-removed r zero (s ∷ rs) h = ground arith
has_route-removed r (suc i) (s ∷ rs) h = ground (arith, has_route-removed r i rs)

pub UniqueRoutes-removed :
    (i : ℕ) (rs : List RouteConfig) → UniqueRoutes rs → UniqueRoutes (take i rs ++ drop (suc i) rs)
UniqueRoutes-removed zero [] u = tt
UniqueRoutes-removed (suc i) [] u = tt
UniqueRoutes-removed zero (r ∷ rs) u = u.1
UniqueRoutes-removed (suc i) (r ∷ rs) u =
    (has_route-removed r i rs u.0, UniqueRoutes-removed i rs u.1)

pub All-removed {ℓ κ} :
    {A : Type ℓ} (P : A → Type κ) (i : ℕ) (xs : List A)
    → All P xs
    → All P (take i xs ++ drop (suc i) xs)
All-removed P zero [] h = tt
All-removed P (suc i) [] h = tt
All-removed P zero (x ∷ xs) h = h.1
All-removed P (suc i) (x ∷ xs) h = (h.0, All-removed P i xs h.1)

has_route-modify :
    (r : RouteConfig) (rs : List RouteConfig) (i : ℕ) (bs : List BackendConfig)
    → has_route r (modify rs i (set_backends bs)) ≡ has_route r rs
unfolding has_route
has_route-modify r [] i bs = refl
has_route-modify r (s ∷ rs) zero bs = refl
has_route-modify r (s ∷ rs) (suc i) bs = ground (arith, has_route-modify r rs i bs)

has_route-set :
    (r : RouteConfig) (rs : List RouteConfig) (bs : List BackendConfig)
    → has_route (set_backends bs r) rs ≡ has_route r rs
unfolding has_route
has_route-set r [] bs = refl
has_route-set r (s ∷ rs) bs = ground (arith, has_route-set r rs bs)

pub UniqueRoutes-modify :
    (rs : List RouteConfig) (i : ℕ) (bs : List BackendConfig)
    → UniqueRoutes rs
    → UniqueRoutes (modify rs i (set_backends bs))
UniqueRoutes-modify [] i bs u = tt
UniqueRoutes-modify (r ∷ rs) zero bs u = (has_route-set r rs bs ∙ u.0, u.1)
UniqueRoutes-modify (r ∷ rs) (suc i) bs u =
    (has_route-modify r rs i bs ∙ u.0, UniqueRoutes-modify rs i bs u.1)

pub All-modify_backends :
    (rs : List RouteConfig) (i : ℕ) (bs : List BackendConfig)
    → All (λ r. UniqueBackends r.backends) rs
    → UniqueBackends bs
    → All (λ r. UniqueBackends r.backends) (modify rs i (set_backends bs))
All-modify_backends [] i bs h u = tt
All-modify_backends (r ∷ rs) zero bs h u = (u, h.1)
All-modify_backends (r ∷ rs) (suc i) bs h u = (h.0, All-modify_backends rs i bs h.1 u)
