-- ===== src/Admin/Commands.antt =====
-- The five admin helper methods of internal/lb/loadbalancer.go as one type of commands: what holds
-- of the load balancer after any of them.
use go_load_balancer.Prelude.{
  ℕ, zero, suc, ◌≡◌, subst, refl, ap, ◌∙◌, some, List, [], ◌∷◌, Option-cases, inl, inr, get_elem?,
  modify, All, All-get_elem?,
}
use go_load_balancer.Prelude.Int.{ℤ}
use go_load_balancer.Text.{Str}
use go_load_balancer.Config.{ListenerConfig, ListenerRef, RouteConfig, BackendConfig}
use go_load_balancer.Extern.{Env}
use go_load_balancer.Balancer.{LoadBalancer, Sort, build_l7_routes, build_l4_pools, reload_config}
use go_load_balancer.Admin.{
  Error, Result, ok, err, edit_add_route, edit_delete_route, edit_add_backend, edit_delete_backend,
  edit_update_weight, commit, settle, through, add_route, delete_route, add_backend_to_route,
  delete_backend_from_route, update_backend_weight_in_route,
}
use go_load_balancer.Admin.Distinct.{IsUnique, UniqueBackends}
use go_load_balancer.Admin.Unique.{
  Keeps, edit_add_route-Keeps, edit_delete_route-Keeps, edit_add_backend-Keeps,
  edit_delete_backend-Keeps, edit_update_weight-Keeps, Result-cases,
}

pub data Command : Type 0 where
  adds_route : RouteConfig → Command
  deletes_route : ℤ → Command
  adds_backend : ℤ → BackendConfig → Command
  deletes_backend : ℤ → Str → Command
  updates_weight : ℤ → Str → ℤ → Command

pub edit : Command → ListenerConfig → Result ListenerConfig
edit (adds_route new) = edit_add_route new
edit (deletes_route i) = edit_delete_route i
edit (adds_backend i new) = edit_add_backend i new
edit (deletes_backend i host) = edit_delete_backend i host
edit (updates_weight i host w) = edit_update_weight i host w

-- The routes that a command brings in are themselves unique.
abbrev pub IsProper : Command → Type 0
IsProper (adds_route new) = UniqueBackends new.backends
IsProper (deletes_route i) = Unit {0}
IsProper (adds_backend i new) = Unit {0}
IsProper (deletes_backend i host) = Unit {0}
IsProper (updates_weight i host w) = Unit {0}

edit-Keeps : (c : Command) (l : ListenerConfig) → IsProper c → IsUnique l → Keeps (edit c l)
unfolding edit
edit-Keeps (adds_route new) l h u = edit_add_route-Keeps new l h u
edit-Keeps (deletes_route i) l h u = edit_delete_route-Keeps i l u
edit-Keeps (adds_backend i new) l h u = edit_add_backend-Keeps i l u new
edit-Keeps (deletes_backend i host) l h u = edit_delete_backend-Keeps i l u host
edit-Keeps (updates_weight i host w) l h u = edit_update_weight-Keeps i l u host w

All-modify_const {ℓ κ} :
    {A : Type ℓ} (P : A → Type κ) (xs : List A) (i : ℕ) (a : A)
    → All P xs
    → P a
    → All P (modify xs i (λ _. a))
All-modify_const P [] i a h k = tt
All-modify_const P (x ∷ xs) zero a h k = (k, h.1)
All-modify_const P (x ∷ xs) (suc i) a h k = (h.0, All-modify_const P xs i a h.1 k)

module _ {Cb : Type 0} (env : Env Cb) (sort : Sort Cb) where
  -- One command, through a pointer to a listener.
  unfoldable pub perform :
      Command → ListenerRef → LoadBalancer Cb → LoadBalancer Cb × Result (Unit {0})
  perform (adds_route new) p = add_route env sort p new
  perform (deletes_route i) p = delete_route env sort p i
  perform (adds_backend i new) p = add_backend_to_route env sort p i new
  perform (deletes_backend i host) p = delete_backend_from_route env sort p i host
  perform (updates_weight i host w) p = update_backend_weight_in_route env sort p i host w

  pub perform-through :
      (c : Command) (p : ListenerRef) (lb : LoadBalancer Cb)
      → perform c p lb ≡ through env sort p (edit c) lb
  unfolding perform edit add_route delete_route add_backend_to_route delete_backend_from_route
      update_backend_weight_in_route
  perform-through (adds_route new) p lb = refl
  perform-through (deletes_route i) p lb = refl
  perform-through (adds_backend i new) p lb = refl
  perform-through (deletes_backend i host) p lb = refl
  perform-through (updates_weight i host w) p lb = refl

  -- A listener is written through a pointer, and the configuration of that listener is reloaded.
  through-heap :
      (p : ListenerRef) (f : ListenerConfig → Result ListenerConfig) (lb : LoadBalancer Cb)
      → ((l : ListenerConfig) → IsUnique l → Keeps (f l))
      → All IsUnique lb.heap
      → All IsUnique (through env sort p f lb).0.heap
  unfolding through settle commit reload_config
  through-heap p f lb keep u = elim (Option-cases (get_elem? lb.heap p)) [
    | inl none_there ↦ rw none_there u
    | inr (l, there) ↦ elim (Result-cases (f l)) [
      | inl (e, fails) ↦ rw (there, fails) u
      | inr (l', made) ↦
          rw (there, made)
            (All-modify_const IsUnique lb.heap p l' u
              (subst Keeps made (keep l (All-get_elem? IsUnique lb.heap p u there))))
    ]
  ]

  -- Whatever a command answers, it leaves the listeners unique: no two routes of one path and host
  -- stand in a listener, and no two backends of one address in a route, if that held before and a
  -- route that the command adds has no two such backends.
  pub perform-IsUnique :
      (c : Command) (p : ListenerRef) (lb : LoadBalancer Cb)
      → IsProper c
      → All IsUnique lb.heap
      → All IsUnique (perform c p lb).0.heap
  perform-IsUnique c p lb h u =
      rw (perform-through c p lb) (through-heap p (edit c) lb (λ l k. edit-Keeps c l h k) u)

  -- The routes and the pools are as they are built from the configuration, so none of them has been
  -- used or health-checked since.
  pub record IsJustBuilt (lb : LoadBalancer Cb) : Type 0 where
    pub routes : lb.routes ≡ build_l7_routes env sort lb.heap lb.cfg
    pub pools : lb.l4_pools ≡ build_l4_pools env sort lb.heap lb.cfg

  pub through-ok :
      (p : ListenerRef) (f : ListenerConfig → Result ListenerConfig) (lb : LoadBalancer Cb)
      (l l' : ListenerConfig)
      → get_elem? lb.heap p ≡ some l
      → f l ≡ ok l'
      → through env sort p f lb ≡ (commit env sort p l' lb, ok tt)
  unfolding through settle
  through-ok p f lb l l' there made = rw (there, made) refl

  -- A command that fails changes nothing.
  pub perform-err :
      (c : Command) (p : ListenerRef) (lb : LoadBalancer Cb) (e : Error)
      → (perform c p lb).1 ≡ err e
      → (perform c p lb).0 ≡ lb
  unfolding through settle commit reload_config
  perform-err c p lb e h = elim (Option-cases (get_elem? lb.heap p)) [
    | inl none_there ↦ ap (λ x. x.0) (perform-through c p lb) ∙ rw none_there refl
    | inr (l, there) ↦ elim (Result-cases (edit c l)) [
      | inl (e', fails) ↦ ap (λ x. x.0) (perform-through c p lb) ∙ rw (there, fails) refl
      | inr (l', made) ↦
          absurd (cc (perform-through c p lb, through-ok p (edit c) lb l l' there made, h))
    ]
  ]
