-- ===== src/Admin.antt =====
-- internal/lb/loadbalancer.go, the helper methods of the admin API: each holds the lock, changes a
-- listener through its pointer, and reloads. The children state what holds of them.
pub mod Distinct
pub mod Edits
pub mod Unique
pub mod Commands
pub mod Reach
pub mod Reload
pub mod Undo
mod Examples
use go_load_balancer.Prelude.{
  ℕ, suc, Bool, true, false, ◌&&◌, ◌||◌, Option, none, some, List, [], ◌∷◌, ◌++◌, leb,
  if◌then◌else◌, length, get_elem?, modify, take, drop,
}
use go_load_balancer.Prelude.Int.{ℤ, pos, ltb_ℤ, leb_ℤ, pos_part, eqb_ℤ}
use go_load_balancer.Text.{Str, eqs}
use go_load_balancer.Config.{ListenerConfig, ListenerRef, RouteConfig, BackendConfig}
use go_load_balancer.Extern.{Env}
use go_load_balancer.Balancer.{LoadBalancer, Sort, reload_config}

-- `nil_listener` is a fault: a pointer to no listener of the heap.
pub data Error : Type 0 where
  out_of_bounds route_exists backend_exists bad_weight backend_not_found nil_listener : Error

pub data Result {ℓ} (A : Type ℓ) : Type ℓ where
  ok : A → Result A
  err : Error → Result A

infixl 5 ◌>>=◌
abbrev pub ◌>>=◌ {ℓ κ} : {A : Type ℓ} {B : Type κ} → Result A → (A → Result B) → Result B
ok a >>= f = f a
err e >>= f = err e

abbrev pub or_fail {ℓ} : {A : Type ℓ} → Option A → Error → Result A
or_fail none e = err e
or_fail (some a) e = ok a

-- getRouteByIndex
unfoldable pub get_route_by_index : ListenerConfig → ℤ → Result RouteConfig
get_route_by_index l index =
    if ltb_ℤ index (pos 0) || leb_ℤ (pos (length l.routes)) index
    then err out_of_bounds
    else or_fail (get_elem? l.routes (pos_part index)) out_of_bounds

-- The loop of AddRoute, which looks for the new route's path and host.
unfoldable pub has_route : RouteConfig → List RouteConfig → Bool
has_route new [] = false
has_route new (r ∷ rs) = (eqs r.path new.path && eqs r.host new.host) || has_route new rs

-- The loop of AddBackendToRoute, which looks for an address, and `found` of the two others.
unfoldable pub has_backend : Str → List BackendConfig → Bool
has_backend addr [] = false
has_backend addr (b ∷ bs) = eqs b.addr addr || has_backend addr bs

-- newBackends of DeleteBackendFromRoute.
unfoldable pub without_backend : Str → List BackendConfig → List BackendConfig
without_backend host [] = []
without_backend host (b ∷ bs) =
    let rest = without_backend host bs in if eqs b.addr host then rest else b ∷ rest

-- The write of UpdateBackendWeightInRoute, which breaks at the first backend of the address.
unfoldable pub with_weight : Str → ℤ → List BackendConfig → List BackendConfig
with_weight host weight [] = []
with_weight host weight (b ∷ bs) =
    if eqs b.addr host then record b { weight = weight } ∷ bs else b ∷ with_weight host weight bs

-- newBackend.Weight == 0 is written over.
unfoldable pub normal_weight : BackendConfig → BackendConfig
normal_weight b = if eqb_ℤ b.weight (pos 0) then record b { weight = pos 1 } else b

abbrev pub set_backends : List BackendConfig → RouteConfig → RouteConfig
set_backends bs r = record r { backends = bs }

-- What each method makes of the listener: the edited listener, or the error that it returns.
unfoldable pub edit_add_route : RouteConfig → ListenerConfig → Result ListenerConfig
unfolding has_route
edit_add_route new l =
    if has_route new l.routes
    then err route_exists
    else ok (record l { routes = l.routes ++ new ∷ [] })

unfoldable pub edit_delete_route : ℤ → ListenerConfig → Result ListenerConfig
edit_delete_route index l = do
  route ← get_route_by_index l index
  ok (record l { routes = take (pos_part index) l.routes ++ drop (suc (pos_part index)) l.routes })

unfoldable pub edit_add_backend : ℤ → BackendConfig → ListenerConfig → Result ListenerConfig
edit_add_backend index new l = do
  route ← get_route_by_index l index
  if has_backend new.addr route.backends
      then err backend_exists
      else ok (record l {
        routes =
            modify l.routes (pos_part index)
              (set_backends (route.backends ++ normal_weight new ∷ []));
      })

unfoldable pub edit_delete_backend : ℤ → Str → ListenerConfig → Result ListenerConfig
edit_delete_backend index host l = do
  route ← get_route_by_index l index
  if has_backend host route.backends
      then ok (record l {
        routes =
            modify l.routes (pos_part index) (set_backends (without_backend host route.backends));
      })
      else err backend_not_found

unfoldable pub edit_update_weight : ℤ → Str → ℤ → ListenerConfig → Result ListenerConfig
edit_update_weight index host weight l = do
  route ← get_route_by_index l index
  if leb_ℤ weight (pos 0)
      then err bad_weight
      else if has_backend host route.backends
      then ok (record l {
        routes =
            modify l.routes (pos_part index)
              (set_backends (with_weight host weight route.backends));
      })
      else err backend_not_found

module _ {Cb : Type 0} (env : Env Cb) (sort : Sort Cb) where
  -- The write through the pointer, and reloadConfig_unsafe(lb.cfg).
  pub commit : ListenerRef → ListenerConfig → LoadBalancer Cb → LoadBalancer Cb
  commit p l lb = reload_config env sort lb.cfg (record lb { heap = modify lb.heap p (λ _. l) })

  -- The state after a method, and what it returns. An error leaves the state alone.
  settle :
      ListenerRef → LoadBalancer Cb → Result ListenerConfig → LoadBalancer Cb × Result (Unit {0})
  settle p lb (ok l) = (commit p l lb, ok tt)
  settle p lb (err e) = (lb, err e)

  unfoldable pub through :
      ListenerRef
      → (ListenerConfig → Result ListenerConfig)
      → LoadBalancer Cb
      → LoadBalancer Cb × Result (Unit {0})
  unfolding settle commit
  through p edit lb = settle p lb (or_fail (get_elem? lb.heap p) nil_listener >>= edit)

  pub add_route : ListenerRef → RouteConfig → LoadBalancer Cb → LoadBalancer Cb × Result (Unit {0})
  unfolding through edit_add_route
  add_route p new = through p (edit_add_route new)

  pub delete_route : ListenerRef → ℤ → LoadBalancer Cb → LoadBalancer Cb × Result (Unit {0})
  unfolding through edit_delete_route
  delete_route p index = through p (edit_delete_route index)

  pub add_backend_to_route :
      ListenerRef → ℤ → BackendConfig → LoadBalancer Cb → LoadBalancer Cb × Result (Unit {0})
  unfolding through edit_add_backend
  add_backend_to_route p index new = through p (edit_add_backend index new)

  pub delete_backend_from_route :
      ListenerRef → ℤ → Str → LoadBalancer Cb → LoadBalancer Cb × Result (Unit {0})
  unfolding through edit_delete_backend
  delete_backend_from_route p index host = through p (edit_delete_backend index host)

  pub update_backend_weight_in_route :
      ListenerRef → ℤ → Str → ℤ → LoadBalancer Cb → LoadBalancer Cb × Result (Unit {0})
  unfolding through edit_update_weight
  update_backend_weight_in_route p index host weight =
      through p (edit_update_weight index host weight)
