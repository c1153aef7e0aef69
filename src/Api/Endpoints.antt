-- ===== src/Api/Endpoints.antt =====
-- StartAdminServer of internal/lb/admin.go: the table of methods and paths that it gives to its
-- router, which is a parameter.
pub mod Reached
use go_load_balancer.Prelude.{
  ℕ, ◌≡◌, ◌⊎◌, refl, Bool, true, false, not, ◌&&◌, Option, none, some, List, [], ◌∷◌, ◌++◌, leb,
  ◌==◌, if◌then◌else◌, All,
}
use go_load_balancer.Prelude.Int.{ℤ}
use go_load_balancer.Text.{Str, str, eqs}
use go_load_balancer.Config.{RouteConfig, BackendConfig}
use go_load_balancer.Extern.{Env}
use go_load_balancer.Balancer.{LoadBalancer, Sort}
use go_load_balancer.Api.{
  Call, gets_routes, posts_route, gets_route, deletes_route, posts_backend, deletes_backend,
  puts_backend, Reply, api,
}

-- A segment of a path template: a word, {index:[0-9]+} or {host}.
pub data Segment : Type 0 where
  literal : Str → Segment
  index_var host_var : Segment

-- The handlers of the table.
pub data Handler : Type 0 where
  get_routes add_route get_route delete_route add_backend delete_backend update_backend : Handler

pub record Endpoint : Type 0 where
  pub method : Str
  pub template : List Segment
  pub handler : Handler

abbrev api_path : List Segment → List Segment
api_path rest = literal (str "api") ∷ literal (str "v1") ∷ literal (str "routes") ∷ rest

unfoldable pub method_of : Handler → Str
method_of get_routes = str "GET"
method_of add_route = str "POST"
method_of get_route = str "GET"
method_of delete_route = str "DELETE"
method_of add_backend = str "POST"
method_of delete_backend = str "DELETE"
method_of update_backend = str "PUT"

unfoldable pub template_of : Handler → List Segment
template_of get_routes = api_path []
template_of add_route = api_path []
template_of get_route = api_path (index_var ∷ [])
template_of delete_route = api_path (index_var ∷ [])
template_of add_backend = api_path (index_var ∷ literal (str "backends") ∷ [])
template_of delete_backend = api_path (index_var ∷ literal (str "backends") ∷ host_var ∷ [])
template_of update_backend = api_path (index_var ∷ literal (str "backends") ∷ host_var ∷ [])

endpoint : Handler → Endpoint
unfolding method_of template_of
endpoint h = record { method = method_of h; template = template_of h; handler = h }

-- The table, in the order of the calls of HandleFunc.
unfoldable pub endpoints : List Endpoint
unfolding endpoint
endpoints =
    endpoint get_routes
    ∷ endpoint add_route
    ∷ endpoint get_route
    ∷ endpoint delete_route
    ∷ endpoint add_backend
    ∷ endpoint delete_backend
    ∷ endpoint update_backend
    ∷ []

-- mux.Vars of the two variables; one that a template does not have is empty.
pub record Vars : Type 0 where
  pub index : Str
  pub host : Str

all_digits : Str → Bool
all_digits [] = true
all_digits (c ∷ s) = (leb 48 c && leb c 57) && all_digits s

unfoldable pub is_index : Str → Bool
unfolding all_digits
is_index [] = false
is_index (c ∷ s) = all_digits (c ∷ s)

no_slash : Str → Bool
no_slash [] = true
no_slash (c ∷ s) = not (c == 47) && no_slash s

-- [^/]+
is_host : Str → Bool
is_host [] = false
is_host (c ∷ s) = no_slash (c ∷ s)

with_vars : (Vars → Vars) → Option Vars → Option Vars
with_vars f none = none
with_vars f (some v) = some (f v)

-- The variables of a path that fits a template, segment by segment.
pub vars_of : List Segment → List Str → Option Vars
vars_of [] [] = some (record { index = []; host = [] })
vars_of [] (x ∷ path) = none
vars_of (s ∷ template) [] = none
vars_of (literal word ∷ template) (x ∷ path) =
    let rest = vars_of template path in if eqs x word then rest else none
vars_of (index_var ∷ template) (x ∷ path) =
    let rest = vars_of template path in
    if is_index x then with_vars (λ v. record v { index = x }) rest else none
vars_of (host_var ∷ template) (x ∷ path) =
    let rest = vars_of template path in
    if is_host x then with_vars (λ v. record v { host = x }) rest else none

-- A router that takes the first entry that fits.
unfoldable pub first_fit : List Endpoint → Str → List Str → Option (Handler × Vars)
first_fit [] method path = none
first_fit (e ∷ es) method path =
    let rest = first_fit es method path in
    if eqs e.method method
    then elim (vars_of e.template path) [ none ↦ rest | some v ↦ some (e.handler, v) ]
    else rest

-- A segment of a path that is clean: not empty, without a '/', and neither "." nor "..".
unfoldable pub is_segment : Str → Bool
unfolding no_slash
is_segment [] = false
is_segment (c ∷ s) =
    no_slash (c ∷ s) && (not (eqs (c ∷ s) (str ".")) && not (eqs (c ∷ s) (str "..")))

-- An entry that a request is not for: it has another method, or its template does not fit.
abbrev pub Misses : Str → List Str → Endpoint → Type 0
Misses method path e = (eqs e.method method ≡ false) ⊎ (vars_of e.template path ≡ none)

-- A router of a table, for a method and the segments of the decoded path.
abbrev pub Router : Type 0
Router = List Endpoint → Str → List Str → Option (Handler × Vars)

-- What mux documents of a clean path: the entry whose method and template fit is taken, with its
-- variables, if no entry before it fits. A word fits itself, {index:[0-9]+} digits, and {host} is
-- [^/]+, one segment. Nothing is said of a path that is not clean, which mux redirects, and of a
-- request that no entry fits.
pub record IsRouter (router : Router) : Type 0 where
  pub takes_first :
      (before after : List Endpoint) (e : Endpoint) (method : Str) (path : List Str) (v : Vars)
      → All (λ s. is_segment s ≡ true) path
      → All (Misses method path) before
      → eqs e.method method ≡ true
      → vars_of e.template path ≡ some v
      → router (before ++ e ∷ after) method path ≡ some (e.handler, v)

-- What the JSON decoder makes of a body, and url.PathUnescape of a host.
pub record Codec : Type 0 where
  pub route : Str → Option RouteConfig
  pub backend : Str → Option BackendConfig
  pub weight : Str → Option ℤ
  pub unescape : Str → Str

-- What a handler reads of its request.
unfoldable pub call_of : Codec → Handler → Vars → Str → Call
call_of codec get_routes v body = gets_routes
call_of codec add_route v body = posts_route (codec.route body)
call_of codec get_route v body = gets_route v.index
call_of codec delete_route v body = deletes_route v.index
call_of codec add_backend v body = posts_backend v.index (codec.backend body)
call_of codec delete_backend v body = deletes_backend v.index (codec.unescape v.host)
call_of codec update_backend v body =
    puts_backend v.index (codec.unescape v.host) (codec.weight body)

module _ {Cb : Type 0} (env : Env Cb) (sort : Sort Cb) (codec : Codec) (router : Router) where
  -- A request to the admin server. Where no entry fits, the router itself replies.
  unfoldable pub serve_admin :
      (Str → Str) → Str → List Str → Str → LoadBalancer Cb → LoadBalancer Cb × Option Reply
  serve_admin header method path body lb = elim (router endpoints method path) [
    | none ↦ (lb, none)
    | some (h, v) ↦
        let (lb', reply) = api env sort header (call_of codec h v body) lb in (lb', some reply)
  ]
