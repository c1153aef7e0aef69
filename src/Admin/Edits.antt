-- ===== src/Admin/Edits.antt =====
-- What AddRoute and DeleteRoute, AddBackendToRoute and DeleteBackendFromRoute of
-- internal/lb/loadbalancer.go make of a listener, one after the other.
use go_load_balancer.Prelude.{
  ℕ, zero, suc, ◌≡◌, refl, ap, true, false, some, List, [], ◌∷◌, ◌++◌, arith, get_elem?, modify,
  take, drop, length, get_elem?-modify_self, length-append, length-modify,
}
use go_load_balancer.Prelude.Int.{ℤ, pos, pos_part}
use go_load_balancer.Text.{Str, eqs, eqs_iff}
use go_load_balancer.Config.{ListenerConfig, RouteConfig, BackendConfig}
use go_load_balancer.Admin.{
  ok, has_route, has_backend, without_backend, normal_weight, set_backends, get_route_by_index,
  edit_add_route, edit_delete_route, edit_add_backend, edit_delete_backend,
}
use go_load_balancer.Admin.Unique.{get_route_by_index-found}

pub modify-back {ℓ} :
    {A : Type ℓ} (xs : List A) (i : ℕ) (f : A → A) {a : A}
    → get_elem? xs i ≡ some a
    → modify (modify xs i f) i (λ _. a) ≡ xs
modify-back [] i f h = refl
modify-back (x ∷ xs) zero f h = ground arith
modify-back (x ∷ xs) (suc i) f h = ap (λ ys. x ∷ ys) (modify-back xs i f h)

take-append_length {ℓ} : {A : Type ℓ} (xs ys : List A) → take (length xs) (xs ++ ys) ≡ xs
take-append_length [] ys = refl
take-append_length (x ∷ xs) ys = ap (λ zs. x ∷ zs) (take-append_length xs ys)

drop-append_one {ℓ} :
    {A : Type ℓ} (xs : List A) (x : A) → drop (suc (length xs)) (xs ++ x ∷ []) ≡ []
drop-append_one [] x = refl
drop-append_one (y ∷ xs) x = drop-append_one xs x

without-append :
    (host : Str) (bs : List BackendConfig) (new : BackendConfig)
    → has_backend host bs ≡ false
    → eqs new.addr host ≡ true
    → without_backend host (bs ++ new ∷ []) ≡ bs
unfolding has_backend without_backend
without-append host [] new h k = ground arith
without-append host (b ∷ bs) new h k = ground (arith, without-append host bs new)

get_elem?-append_length {ℓ} :
    {A : Type ℓ} (xs : List A) (x : A) → get_elem? (xs ++ x ∷ []) (length xs) ≡ some x
get_elem?-append_length [] x = refl
get_elem?-append_length (y ∷ xs) x = get_elem?-append_length xs x

has_backend-append_self :
    (host : Str) (bs : List BackendConfig) (new : BackendConfig)
    → eqs new.addr host ≡ true
    → has_backend host (bs ++ new ∷ []) ≡ true
unfolding has_backend
has_backend-append_self host [] new k = ground arith
has_backend-append_self host (b ∷ bs) new k = ground (arith, has_backend-append_self host bs new k)

modify-set_back :
    (rs : List RouteConfig) (i : ℕ) (bs : List BackendConfig) {r : RouteConfig}
    → get_elem? rs i ≡ some r
    → modify (modify rs i (set_backends bs)) i (set_backends r.backends) ≡ rs
modify-set_back [] i bs h = refl
modify-set_back (s ∷ rs) zero bs h = ap (λ b. set_backends b s ∷ rs) (ground arith)
modify-set_back (s ∷ rs) (suc i) bs h = ap (λ ys. s ∷ ys) (modify-set_back rs i bs h)

normal_weight-addr : (b : BackendConfig) → eqs (normal_weight b).addr b.addr ≡ true
unfolding normal_weight
normal_weight-addr b = ground (arith, (eqs_iff b.addr b.addr).1 refl)

append_nil {ℓ} : {A : Type ℓ} (xs : List A) → xs ++ [] ≡ xs
append_nil [] = refl
append_nil (x ∷ xs) = ap (λ ys. x ∷ ys) (append_nil xs)

get_route_by_index-last :
    (l : ListenerConfig) (rs : List RouteConfig) (new : RouteConfig)
    → get_route_by_index (record l { routes = rs ++ new ∷ [] }) (pos (length rs)) ≡ ok new
unfolding get_route_by_index
get_route_by_index-last l rs new =
    ground (arith, length-append rs (new ∷ []), get_elem?-append_length rs new)

-- The last route is deleted.
pub edit_delete_route-last :
    (l : ListenerConfig) (new : RouteConfig)
    → edit_delete_route (pos (length l.routes)) (record l { routes = l.routes ++ new ∷ [] }) ≡ ok l
unfolding edit_delete_route
edit_delete_route-last l new =
    rw
      (
        get_route_by_index-last l l.routes new,
        take-append_length l.routes (new ∷ []),
        drop-append_one l.routes new,
        append_nil l.routes,
      )
      refl

-- The backends of the route of an index are written.
get_route_by_index-modify :
    (l : ListenerConfig) (i : ℤ) (bs : List BackendConfig) (r : RouteConfig)
    → get_route_by_index l i ≡ ok r
    → get_route_by_index (record l { routes = modify l.routes (pos_part i) (set_backends bs) }) i
      ≡ ok (set_backends bs r)
unfolding get_route_by_index
get_route_by_index-modify l i bs r h = ground (
  arith,
  length-modify l.routes (pos_part i) (set_backends bs),
  get_elem?-modify_self l.routes (pos_part i) (set_backends bs) (get_route_by_index-found l i h),
)

pub edit_add_route-new :
    (new : RouteConfig) (l : ListenerConfig)
    → has_route new l.routes ≡ false
    → edit_add_route new l ≡ ok (record l { routes = l.routes ++ new ∷ [] })
unfolding edit_add_route
edit_add_route-new new l absent = rw absent refl

-- The listener with one backend more in the route of an index.
abbrev pub with_new : ℤ → BackendConfig → RouteConfig → ListenerConfig → ListenerConfig
with_new i new r l = record l {
  routes = modify l.routes (pos_part i) (set_backends (r.backends ++ normal_weight new ∷ []));
}

module _ (i : ℤ) (new : BackendConfig) (l : ListenerConfig) (r : RouteConfig)
    (found : get_route_by_index l i ≡ ok r) (absent : has_backend new.addr r.backends ≡ false) where
  pub edit_add_backend-new : edit_add_backend i new l ≡ ok (with_new i new r l)
  unfolding edit_add_backend
  edit_add_backend-new = rw (found, absent) refl

  pub edit_delete_backend-new : edit_delete_backend i new.addr (with_new i new r l) ≡ ok l
  unfolding edit_delete_backend
  edit_delete_backend-new =
      rw
        (
          get_route_by_index-modify l i (r.backends ++ normal_weight new ∷ []) r found,
          has_backend-append_self new.addr r.backends (normal_weight new) (normal_weight-addr new),
          without-append new.addr r.backends (normal_weight new) absent (normal_weight-addr new),
          modify-set_back l.routes (pos_part i) (r.backends ++ normal_weight new ∷ [])
              (get_route_by_index-found l i found),
        )
        refl
