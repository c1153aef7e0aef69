-- ===== src/Admin/Unique.antt =====
-- The edits of the admin helper methods of internal/lb/loadbalancer.go and duplicate routes and
-- backends in a listener.
use go_load_balancer.Prelude.{
  ℕ, ◌≡◌, refl, ◌∙◌, some, List, [], ◌∷◌, arith, Bool-cases, inl, inr, ◌⊎◌, get_elem?, modify,
  All-get_elem?, All-append,
}
use go_load_balancer.Prelude.Int.{ℤ, pos, pos_part, leb_ℤ}
use go_load_balancer.Text.{Str}
use go_load_balancer.Config.{ListenerConfig, RouteConfig, BackendConfig}
use go_load_balancer.Admin.{
  Error, Result, ok, err, get_route_by_index, has_route, has_backend, normal_weight, set_backends,
  edit_add_route, edit_delete_route, edit_add_backend, edit_delete_backend, edit_update_weight,
}
use go_load_balancer.Admin.Distinct.{
  UniqueBackends, IsUnique, UniqueBackends-append, UniqueBackends-without,
  UniqueBackends-with_weight, UniqueRoutes-append, UniqueRoutes-removed, All-removed,
  UniqueRoutes-modify, All-modify_backends,
}

-- A route that is found by its index stands there.
pub get_route_by_index-found :
    (l : ListenerConfig) (index : ℤ) {r : RouteConfig}
    → get_route_by_index l index ≡ ok r
    → get_elem? l.routes (pos_part index) ≡ some r
unfolding get_route_by_index
get_route_by_index-found l index e = ground arith

-- What an edit makes of a listener that is unique, if it makes one.
abbrev pub Keeps : Result ListenerConfig → Type 0
Keeps (ok l) = IsUnique l
Keeps (err e) = Unit {0}

has_backend-normal :
    (bs : List BackendConfig) (b : BackendConfig)
    → has_backend (normal_weight b).addr bs ≡ has_backend b.addr bs
unfolding normal_weight
has_backend-normal bs b = ground arith

-- The backends of a route are written, and they are unique.
written :
    (l : ListenerConfig) (i : ℕ) (bs : List BackendConfig)
    → IsUnique l
    → UniqueBackends bs
    → IsUnique (record l { routes = modify l.routes i (set_backends bs) })
written l i bs u h = record {
  routes = UniqueRoutes-modify l.routes i bs u.routes;
  backends = All-modify_backends l.routes i bs u.backends h;
}

pub edit_add_route-Keeps :
    (new : RouteConfig) (l : ListenerConfig)
    → UniqueBackends new.backends
    → IsUnique l
    → Keeps (edit_add_route new l)
unfolding edit_add_route
edit_add_route-Keeps new l h u = elim (Bool-cases (has_route new l.routes)) [
  | inl there ↦ rw there tt
  | inr absent ↦ rw absent (record {
    routes = UniqueRoutes-append l.routes new u.routes absent;
    backends = All-append (λ r. UniqueBackends r.backends) l.routes (new ∷ []) u.backends (h, tt);
  })
]

pub Result-cases {ℓ} :
    {A : Type ℓ} (r : Result A) → ((e : Error) × (r ≡ err e)) ⊎ ((a : A) × (r ≡ ok a))
Result-cases (ok a) = inr (a, refl)
Result-cases (err e) = inl (e, refl)

pub edit_delete_route-Keeps :
    (index : ℤ) (l : ListenerConfig) → IsUnique l → Keeps (edit_delete_route index l)
unfolding edit_delete_route
edit_delete_route-Keeps index l u = elim (Result-cases (get_route_by_index l index)) [
  | inl (e, out) ↦ rw out tt
  | inr (r, found) ↦ rw found (record {
    routes = UniqueRoutes-removed (pos_part index) l.routes u.routes;
    backends = All-removed (λ r. UniqueBackends r.backends) (pos_part index) l.routes u.backends;
  })
]

module _ (index : ℤ) (l : ListenerConfig) (u : IsUnique l) where
  -- The backends of the route that an index finds.
  found_backends : {r : RouteConfig} → get_route_by_index l index ≡ ok r → UniqueBackends r.backends
  found_backends e =
      All-get_elem? (λ r. UniqueBackends r.backends) l.routes (pos_part index) u.backends
        (get_route_by_index-found l index e)

  pub edit_add_backend-Keeps : (new : BackendConfig) → Keeps (edit_add_backend index new l)
  unfolding edit_add_backend
  edit_add_backend-Keeps new = elim (Result-cases (get_route_by_index l index)) [
    | inl (e, out) ↦ rw out tt
    | inr (r, found) ↦ elim (Bool-cases (has_backend new.addr r.backends)) [
      | inl there ↦ rw (found, there) tt
      | inr absent ↦
          rw (found, absent)
            (written l (pos_part index) _ u (
              UniqueBackends-append r.backends (normal_weight new) (found_backends found)
                (has_backend-normal r.backends new ∙ absent)))
    ]
  ]

  pub edit_delete_backend-Keeps : (host : Str) → Keeps (edit_delete_backend index host l)
  unfolding edit_delete_backend
  edit_delete_backend-Keeps host = elim (Result-cases (get_route_by_index l index)) [
    | inl (e, out) ↦ rw out tt
    | inr (r, found) ↦ elim (Bool-cases (has_backend host r.backends)) [
      | inl there ↦
          rw (found, there)
            (written l (pos_part index) _ u
              (UniqueBackends-without host r.backends (found_backends found)))
      | inr absent ↦ rw (found, absent) tt
    ]
  ]

  pub edit_update_weight-Keeps : (host : Str) (w : ℤ) → Keeps (edit_update_weight index host w l)
  unfolding edit_update_weight
  edit_update_weight-Keeps host w = elim (Result-cases (get_route_by_index l index)) [
    | inl (e, out) ↦ rw out tt
    | inr (r, found) ↦ elim (Bool-cases (leb_ℤ w (pos 0))) [
      | inl bad ↦ rw (found, bad) tt
      | inr good ↦ elim (Bool-cases (has_backend host r.backends)) [
        | inl there ↦
            rw (found, good, there)
              (written l (pos_part index) _ u
                (UniqueBackends-with_weight host w r.backends (found_backends found)))
        | inr absent ↦ rw (found, good, absent) tt
      ]
    ]
  ]
