-- ===== src/Admin/Undo.antt =====
-- AddRoute and DeleteRoute, AddBackendToRoute and DeleteBackendFromRoute of
-- internal/lb/loadbalancer.go, one after the other.
use go_load_balancer.Prelude.{
  ℕ, suc, ◌≡◌, refl, ap, sym, subst, ◌∙◌, false, none, some, List, [], ◌∷◌, get_elem?, length,
  get_elem?-modify_self, All,
}
use go_load_balancer.Prelude.Int.{ℤ, pos}
use go_load_balancer.Text.{Str}
use go_load_balancer.Config.{Config, ListenerConfig, ListenerRef, RouteConfig, BackendConfig}
use go_load_balancer.Extern.{Env, FloatOps}
use go_load_balancer.Strategy.{get_next_backend}
use go_load_balancer.Route.Order.{IsSort}
use go_load_balancer.Balancer.{LoadBalancer, Sort, reload_config}
use go_load_balancer.Balancer.Fresh.{reload_serves_none}
use go_load_balancer.Admin.{
  Result, ok, has_route, has_backend, get_route_by_index, edit_add_route, edit_delete_route,
  edit_add_backend, edit_delete_backend, commit, through, add_route, delete_route,
  add_backend_to_route, delete_backend_from_route,
}
use go_load_balancer.Admin.Commands.{through-ok}
use go_load_balancer.Admin.Edits.{
  modify-back, edit_add_route-new, edit_delete_route-last, edit_add_backend-new,
  edit_delete_backend-new,
}

All-of_get_elem? {ℓ κ} :
    {A : Type ℓ} (P : A → Type κ) (xs : List A)
    → ((i : ℕ) (x : A) → get_elem? xs i ≡ some x → P x)
    → All P xs
All-of_get_elem? P [] h = tt
All-of_get_elem? P (x ∷ xs) h = (h 0 x refl, All-of_get_elem? P xs (λ i y e. h (suc i) y e))

module _ {Cb : Type 0} (env : Env Cb) (sort : Sort Cb) (f : FloatOps) (ip : Str) where
  -- Of what a change of the configuration and its undoing answer: the configuration and every listener
  -- are what they were, and no HTTP route has a backend for the client.
  pub record IsUndone (lb : LoadBalancer Cb) (after : LoadBalancer Cb × Result (Unit {0}))
      : Type 0 where
    pub answer : after.1 ≡ ok tt
    pub cfg : after.0.cfg ≡ lb.cfg
    pub heap : after.0.heap ≡ lb.heap
    pub idle : All (λ c. (get_next_backend env f ip c.pool).1 ≡ none) after.0.routes

  reload-idle :
      (laws : IsSort sort) (lb : LoadBalancer Cb) (cfg : Config)
      → All
          (λ c. (get_next_backend env f ip c.pool).1 ≡ none)
          (reload_config env sort cfg lb).routes
  reload-idle laws lb cfg =
      All-of_get_elem? (λ c. (get_next_backend env f ip c.pool).1 ≡ none) _
        (λ i c e. reload_serves_none env sort cfg laws lb f ip i c e)

  commit-IsUndone :
      (laws : IsSort sort) (p : ListenerRef) (lb : LoadBalancer Cb) (l l' : ListenerConfig)
      → get_elem? lb.heap p ≡ some l
      → IsUndone lb (commit env sort p l (commit env sort p l' lb), ok tt)
  unfolding commit reload_config
  commit-IsUndone laws p lb l l' there = record {
    answer = refl;
    cfg = refl;
    heap = modify-back lb.heap p (λ _. l') there;
    idle = reload-idle laws (commit env sort p l (commit env sort p l' lb)) lb.cfg;
  }

  found :
      (p : ListenerRef) (lb : LoadBalancer Cb) (l l' : ListenerConfig)
      → get_elem? lb.heap p ≡ some l
      → get_elem? (commit env sort p l' lb).heap p ≡ some l'
  unfolding commit reload_config
  found p lb l l' there = get_elem?-modify_self lb.heap p (λ _. l') there

  through-back :
      (laws : IsSort sort) (p : ListenerRef) (g h : ListenerConfig → Result ListenerConfig)
      (lb : LoadBalancer Cb) (l l' : ListenerConfig)
      → get_elem? lb.heap p ≡ some l
      → g l ≡ ok l'
      → h l' ≡ ok l
      → IsUndone lb (through env sort p h (through env sort p g lb).0)
  through-back laws p g h lb l l' there made back =
      subst (IsUndone lb)
        (sym (
          ap (λ x. through env sort p h x.0) (through-ok env sort p g lb l l' there made)
          ∙ through-ok env sort p h (commit env sort p l' lb) l' l (found p lb l l' there) back))
        (commit-IsUndone laws p lb l l' there)

  -- A route that AddRoute has added to a listener of any load balancer is the last: DeleteRoute at that
  -- index succeeds, and the configuration and every listener are what they were. The service is not:
  -- both changes build the pools anew, so no HTTP route has a backend until a health check has run,
  -- whatever was healthy before. The sort is one that sorts, and the route has no null among its
  -- backends.
  pub add_route-delete_route :
      IsSort sort
      → (p : ListenerRef) (new : RouteConfig) (lb : LoadBalancer Cb) (l : ListenerConfig)
      → get_elem? lb.heap p ≡ some l
      → has_route new l.routes ≡ false
      → IsUndone lb
          (delete_route env sort p (pos (length l.routes)) (add_route env sort p new lb).0)
  unfolding add_route delete_route
  add_route-delete_route laws p new lb l there absent =
      through-back laws p (edit_add_route new) (edit_delete_route (pos (length l.routes))) lb l _
        there (edit_add_route-new new l absent) (edit_delete_route-last l new)

  -- A backend that AddBackendToRoute has added to a route of any load balancer is taken out by
  -- DeleteBackendFromRoute, and the configuration and every listener are what they were. The service
  -- is not: no HTTP route has a backend until a health check has run, whatever was healthy before. The
  -- sort is one that sorts.
  pub add_backend-delete_backend :
      IsSort sort
      → (p : ListenerRef) (i : ℤ) (new : BackendConfig) (lb : LoadBalancer Cb) (l : ListenerConfig)
        (r : RouteConfig)
      → get_elem? lb.heap p ≡ some l
      → get_route_by_index l i ≡ ok r
      → has_backend new.addr r.backends ≡ false
      → IsUndone lb (
          delete_backend_from_route env sort p i new.addr
            (add_backend_to_route env sort p i new lb).0)
  unfolding add_backend_to_route delete_backend_from_route
  add_backend-delete_backend laws p i new lb l r there at absent =
      through-back laws p (edit_add_backend i new) (edit_delete_backend i new.addr) lb l _ there
        (edit_add_backend-new i new l r at absent) (edit_delete_backend-new i new l r at absent)
