-- ===== src/Api/Replies.antt =====
-- The handlers of internal/lb/admin.go: what their replies say of the state.
use go_load_balancer.Prelude.{
  ℕ, ◌≡◌, ◌≢◌, refl, Option, none, some, Bool-cases, inl, inr, get_elem?,
}
use go_load_balancer.Text.{Str}
use go_load_balancer.Prelude.Int.{ℤ}
use go_load_balancer.Config.{ListenerRef, RouteConfig}
use go_load_balancer.Extern.{Env}
use go_load_balancer.Balancer.{LoadBalancer, Sort}
use go_load_balancer.Admin.{Error, Result, ok, err, get_route_by_index}
use go_load_balancer.Admin.Commands.{
  Command, adds_route, deletes_route, adds_backend, deletes_backend, updates_weight, perform,
  perform-err,
}
use go_load_balancer.Api.{
  Reply, failed, Call, gets_routes, posts_route, gets_route, deletes_route as deletes,
  posts_backend, deletes_backend as removes, puts_backend, get_index, get_first_l7_listener,
  given_path, given_addr, authorized, on_some, on_listener, answered, show, show_at, list_at,
  handle, api,
}

-- A success, which no failure is.
abbrev IsSuccess : Reply → Type 0
IsSuccess r = (status : ℕ) → r ≢ failed status

module _ {Cb : Type 0} where
  -- A handler that leaves the state alone where it fails.
  abbrev IsCareful : (LoadBalancer Cb → LoadBalancer Cb × Reply) → Type 0
  IsCareful h = (lb : LoadBalancer Cb) (status : ℕ) → (h lb).1 ≡ failed status → (h lb).0 ≡ lb

  on_some-IsCareful {ℓ} :
      {A : Type ℓ} (code : ℕ) (o : Option A) (next : A → LoadBalancer Cb → LoadBalancer Cb × Reply)
      → ((a : A) → IsCareful (next a))
      → IsCareful (on_some code o next)
  unfolding on_some
  on_some-IsCareful code none next careful lb status = λ h. refl
  on_some-IsCareful code (some a) next careful lb status = careful a lb status

  on_listener-IsCareful :
      (next : ListenerRef → LoadBalancer Cb → LoadBalancer Cb × Reply)
      → ((l : ListenerRef) → IsCareful (next l))
      → IsCareful (on_listener next)
  on_listener-IsCareful next careful lb =
      on_some-IsCareful 404 (get_first_l7_listener lb) next careful lb

  answered-careful :
      (code : ℕ) (success : Reply) (lb : LoadBalancer Cb) (x : LoadBalancer Cb × Result (Unit {0}))
      → IsSuccess success
      → ((e : Error) → x.1 ≡ err e → x.0 ≡ lb)
      → (status : ℕ) → (answered code success x).1 ≡ failed status
      → (answered code success x).0 ≡ lb
  unfolding answered
  answered-careful code success lb (lb', ok done) good same status h = absurd (good status h)
  answered-careful code success lb (lb', err e) good same status h = same e refl

  show-state : (lb : LoadBalancer Cb) (r : Result RouteConfig) → (show lb r).0 ≡ lb
  unfolding show
  show-state lb (ok r) = refl
  show-state lb (err e) = refl

  show_at-IsCareful : (i : ℤ) (l : ListenerRef) → IsCareful (show_at i l)
  unfolding show_at
  show_at-IsCareful i l lb =
      on_some-IsCareful 404 (get_elem? lb.heap l) _
        (λ c lb status h. show-state lb (get_route_by_index c i)) lb

  list_at-IsCareful : (l : ListenerRef) → IsCareful (list_at l)
  unfolding list_at
  list_at-IsCareful l lb = on_some-IsCareful 404 (get_elem? lb.heap l) _ (λ c lb status h. refl) lb

module _ {Cb : Type 0} (env : Env Cb) (sort : Sort Cb) where
  -- A reply to a command of the API.
  command-IsCareful :
      (c : Command) (l : ListenerRef) (code : ℕ) (success : Reply)
      → IsSuccess success
      → IsCareful (λ lb. answered code success (perform env sort c l lb))
  command-IsCareful c l code success good lb status =
      answered-careful code success lb (perform env sort c l lb) good
        (λ e. perform-err env sort c l lb e) status

  handle-IsCareful : (call : Call) → IsCareful (handle env sort call)
  unfolding handle perform
  handle-IsCareful gets_routes = on_listener-IsCareful list_at list_at-IsCareful
  handle-IsCareful (posts_route body) = on_some-IsCareful 400 (given_path body) _ (λ new.
      on_listener-IsCareful _
        (λ l. command-IsCareful (adds_route new) l 500 _ (λ s e. absurd (cc e))))
  handle-IsCareful (gets_route var) =
      on_some-IsCareful 400 (get_index var) _ (λ i. on_listener-IsCareful _ (show_at-IsCareful i))
  handle-IsCareful (deletes var) = on_some-IsCareful 400 (get_index var) _ (λ i.
      on_listener-IsCareful _
        (λ l. command-IsCareful (deletes_route i) l 404 _ (λ s e. absurd (cc e))))
  handle-IsCareful (posts_backend var body) = on_some-IsCareful 400 (get_index var) _ (λ i.
      on_some-IsCareful 400 (given_addr body) _ (λ new.
        on_listener-IsCareful _
          (λ l. command-IsCareful (adds_backend i new) l 404 _ (λ s e. absurd (cc e)))))
  handle-IsCareful (removes var host) = on_some-IsCareful 400 (get_index var) _ (λ i.
      on_listener-IsCareful _
        (λ l. command-IsCareful (deletes_backend i host) l 404 _ (λ s e. absurd (cc e))))
  handle-IsCareful (puts_backend var host body) = on_some-IsCareful 400 (get_index var) _ (λ i.
      on_some-IsCareful 400 body _ (λ weight.
        on_listener-IsCareful _
          (λ l. command-IsCareful (updates_weight i host weight) l 404 _ (λ s e. absurd (cc e)))))

  -- Whatever the call, a reply that reports a failure leaves the load balancer as it was: its
  -- listeners, its configuration, its routes and its pools.
  pub failed_reply_changes_nothing :
      (header : Str → Str) (call : Call) (lb : LoadBalancer Cb) (status : ℕ)
      → (api env sort header call lb).1 ≡ failed status
      → (api env sort header call lb).0 ≡ lb
  unfolding api
  failed_reply_changes_nothing header call lb status =
      elim (Bool-cases (authorized lb.cfg header)) [
        | inl passes ↦ rw passes (handle-IsCareful call lb status)
        | inr refused ↦ rw refused (λ h. refl)
      ]
