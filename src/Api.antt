-- ===== src/Api.antt =====
-- internal/lb/admin.go: the HTTP handlers of the admin API and their authentication. The JSON decoder
-- is a parameter: a body is what it decodes to, or none. A path variable is a string.
pub mod Auth
pub mod Replies
pub mod Endpoints
mod Examples
use go_load_balancer.Prelude.{
  ℕ, suc, ◌+◌, ◌-◌, ◌*◌, ◌^◌, Bool, true, false, ◌&&◌, Option, none, some, List, [], ◌∷◌, ◌++◌, ltb,
  leb, if◌then◌else◌, get_elem?,
}
use go_load_balancer.Prelude.Int.{ℤ, pos}
use go_load_balancer.Text.{Str, str, eqs, is_empty, trim_prefix}
use go_load_balancer.Config.{Config, ListenerConfig, ListenerRef, RouteConfig, BackendConfig}
use go_load_balancer.Extern.{Env}
use go_load_balancer.Balancer.{LoadBalancer, Sort, is_l7}
use go_load_balancer.Admin.{
  Error, Result, ok, err, get_route_by_index, normal_weight, add_route, delete_route,
  add_backend_to_route, delete_backend_from_route, update_backend_weight_in_route,
}

-- What a handler answers: `failed` is respondWithError with its status; the others are
-- respondWithJSON with their payload.
pub data Reply : Type 0 where
  failed : ℕ → Reply
  listed : List RouteConfig → Reply
  shown : RouteConfig → Reply
  created_route : RouteConfig → Reply
  created_backend : BackendConfig → Reply
  deleted updated : Reply

-- adminAuthMiddleware: whether the request goes on to its handler.
unfoldable pub authorized : Config → (Str → Str) → Bool
authorized cfg header =
    let auth_header = header (str "Authorization") in
    let token = trim_prefix auth_header (str "Bearer ") in
    if is_empty cfg.admin_token
    then true
    else if is_empty auth_header
    then false
    else if eqs token auth_header
    then false
    else if eqs token cfg.admin_token
    then true
    else false

-- The digits of strconv.Atoi, behind the value so far. The route's pattern is [0-9]+: no sign comes.
digits : ℕ → Str → Option ℕ
digits n [] = some n
digits n (c ∷ s) =
    let rest = digits (n * 10 + (c - 48)) s in if leb 48 c && leb c 57 then rest else none

-- An index that an int holds.
in_range : Option ℕ → Option ℤ
in_range none = none
in_range (some n) = if ltb n (2 ^ 63) then some (pos n) else none

-- getIndex
unfoldable pub get_index : Str → Option ℤ
unfolding digits in_range
get_index [] = none
get_index (c ∷ s) = in_range (digits 0 (c ∷ s))

-- newRoute.Path == "" and newBackend.Addr == "".
unfoldable pub given_path : Option RouteConfig → Option RouteConfig
given_path none = none
given_path (some r) = if is_empty r.path then none else some r

unfoldable pub given_addr : Option BackendConfig → Option BackendConfig
given_addr none = none
given_addr (some b) = if is_empty b.addr then none else some b

-- The loop of getFirstL7Listener.
first_l7 : List ListenerConfig → List ListenerRef → Option ListenerRef
first_l7 heap [] = none
first_l7 heap (l ∷ ls) =
    let rest = first_l7 heap ls in
    elim (get_elem? heap l) [ none ↦ rest | some c ↦ if is_l7 c then some l else rest ]

-- The calls of the API, with their path variables and what the body decodes to. A host is what
-- url.PathUnescape answers.
pub data Call : Type 0 where
  gets_routes : Call
  posts_route : Option RouteConfig → Call
  gets_route : Str → Call
  deletes_route : Str → Call
  posts_backend : Str → Option BackendConfig → Call
  deletes_backend : Str → Str → Call
  puts_backend : Str → Str → Option ℤ → Call

module _ {Cb : Type 0} where
  unfoldable pub get_first_l7_listener : LoadBalancer Cb → Option ListenerRef
  unfolding first_l7
  get_first_l7_listener lb = first_l7 lb.heap lb.cfg.listeners

  -- An early return with a status where something is missing.
  on_some {ℓ} :
      {A : Type ℓ}
      → ℕ
      → Option A
      → (A → LoadBalancer Cb → LoadBalancer Cb × Reply)
      → LoadBalancer Cb
      → LoadBalancer Cb × Reply
  on_some status none next lb = (lb, failed status)
  on_some status (some a) next lb = next a lb

  -- On an index that does not parse, on a body that does not decode, and without a listener.
  abbrev on_index :
      Str
      → (ℤ → LoadBalancer Cb → LoadBalancer Cb × Reply)
      → LoadBalancer Cb
      → LoadBalancer Cb × Reply
  on_index var = on_some 400 (get_index var)

  abbrev on_body {ℓ} :
      {A : Type ℓ}
      → Option A
      → (A → LoadBalancer Cb → LoadBalancer Cb × Reply)
      → LoadBalancer Cb
      → LoadBalancer Cb × Reply
  on_body body = on_some 400 body

  abbrev on_listener :
      (ListenerRef → LoadBalancer Cb → LoadBalancer Cb × Reply)
      → LoadBalancer Cb
      → LoadBalancer Cb × Reply
  on_listener next lb = on_some 404 (get_first_l7_listener lb) next lb

  -- The reply to a helper method's result: the status of an error, or the success.
  answered : ℕ → Reply → LoadBalancer Cb × Result (Unit {0}) → LoadBalancer Cb × Reply
  answered status success (lb, ok done) = (lb, success)
  answered status success (lb, err e) = (lb, failed status)

  -- getRouteByIndex, and the reply of getRouteHandler.
  show : LoadBalancer Cb → Result RouteConfig → LoadBalancer Cb × Reply
  show lb (ok r) = (lb, shown r)
  show lb (err e) = (lb, failed 404)

  show_at : ℤ → ListenerRef → LoadBalancer Cb → LoadBalancer Cb × Reply
  unfolding show on_some
  show_at index l lb =
      on_some 404 (get_elem? lb.heap l) (λ c lb. show lb (get_route_by_index c index)) lb

  list_at : ListenerRef → LoadBalancer Cb → LoadBalancer Cb × Reply
  unfolding on_some
  list_at l lb = on_some 404 (get_elem? lb.heap l) (λ c lb. (lb, listed c.routes)) lb

module _ {Cb : Type 0} (env : Env Cb) (sort : Sort Cb) where
  -- The handlers. That a reload may come between a look-up and a write is a matter of `Admin.Reload`.
  get_routes_handler : LoadBalancer Cb → LoadBalancer Cb × Reply
  unfolding on_some list_at
  get_routes_handler = on_listener list_at

  add_route_handler : Option RouteConfig → LoadBalancer Cb → LoadBalancer Cb × Reply
  unfolding on_some answered
  add_route_handler body =
      on_body (given_path body) (λ new.
        on_listener (λ l lb. answered 500 (created_route new) (add_route env sort l new lb)))

  get_route_handler : Str → LoadBalancer Cb → LoadBalancer Cb × Reply
  unfolding on_some show_at
  get_route_handler var = on_index var (λ index. on_listener (show_at index))

  delete_route_handler : Str → LoadBalancer Cb → LoadBalancer Cb × Reply
  unfolding on_some answered
  delete_route_handler var =
      on_index var
        (λ index. on_listener (λ l lb. answered 404 deleted (delete_route env sort l index lb)))

  add_backend_handler : Str → Option BackendConfig → LoadBalancer Cb → LoadBalancer Cb × Reply
  unfolding on_some answered
  add_backend_handler var body = on_index var (λ index. on_body (given_addr body) (λ new.
      on_listener (λ l lb.
        answered 404 (created_backend (normal_weight new))
          (add_backend_to_route env sort l index new lb))))

  delete_backend_handler : Str → Str → LoadBalancer Cb → LoadBalancer Cb × Reply
  unfolding on_some answered
  delete_backend_handler var host = on_index var (λ index.
      on_listener
        (λ l lb. answered 404 deleted (delete_backend_from_route env sort l index host lb)))

  update_backend_handler : Str → Str → Option ℤ → LoadBalancer Cb → LoadBalancer Cb × Reply
  unfolding on_some answered
  update_backend_handler var host body = on_index var (λ index. on_body body (λ weight.
      on_listener (λ l lb.
        answered 404 updated (update_backend_weight_in_route env sort l index host weight lb))))

  -- The handler of a call.
  pub handle : Call → LoadBalancer Cb → LoadBalancer Cb × Reply
  unfolding get_routes_handler add_route_handler get_route_handler delete_route_handler
      add_backend_handler delete_backend_handler update_backend_handler
  handle gets_routes = get_routes_handler
  handle (posts_route body) = add_route_handler body
  handle (gets_route var) = get_route_handler var
  handle (deletes_route var) = delete_route_handler var
  handle (posts_backend var body) = add_backend_handler var body
  handle (deletes_backend var host) = delete_backend_handler var host
  handle (puts_backend var host body) = update_backend_handler var host body

  -- A call as the subrouter serves it, behind the authentication.
  pub api : (Str → Str) → Call → LoadBalancer Cb → LoadBalancer Cb × Reply
  unfolding handle
  api header call lb = if authorized lb.cfg header then handle call lb else (lb, failed 401)
