-- ===== src/Api/Examples.antt =====
-- The admin API at a small configuration.
use go_load_balancer.Prelude.{
  ◌≡◌, ◌↔◌, ◌⊎◌, refl, inl, inr, true, none, some, List, [], ◌∷◌, ◌++◌, if◌then◌else◌, All,
  Bool-cases,
}
use go_load_balancer.Text.{Str, str, eqs, is_empty, trim_prefix, has_prefix}
use go_load_balancer.Balancer.{is_l7, new_load_balancer}
use go_load_balancer.Admin.{get_route_by_index}
use go_load_balancer.Api.{
  gets_route, puts_backend, handle, authorized, get_index, get_first_l7_listener, api, failed,
}
use go_load_balancer.Api.Auth.{authorized_lem}
use go_load_balancer.Api.Replies.{failed_reply_changes_nothing}
use go_load_balancer.Prelude.Int.{pos}
use go_load_balancer.Api.Endpoints.{
  Endpoint, Vars, Codec, update_backend, serve_admin, vars_of, first_fit, Misses, IsRouter,
  is_index, is_segment,
}
use go_load_balancer.Api.Endpoints.Reached.{documented, endpoint_is_reached}
use go_load_balancer.Samples.{env, sort, config, started}

abbrev headers : Str → Str
headers key = if eqs key (str "Authorization") then str "Bearer secret" else []

authorized_lem_example :
    (authorized (config []) headers ≡ true)
    ↔ ((str "secret" ≡ []) ⊎ (headers (str "Authorization") ≡ str "Bearer " ++ str "secret"))
authorized_lem_example = authorized_lem (config []) headers

-- A call that is let through, and finds the listener but no route of its index.
not_found : (api env sort headers (gets_route (str "12")) started).1 ≡ failed 404
unfolding api authorized is_empty eqs trim_prefix has_prefix new_load_balancer handle get_index
    get_first_l7_listener is_l7 get_route_by_index
not_found = refl

failed_reply_changes_nothing_example :
    (api env sort headers (gets_route (str "12")) started).0 ≡ started
unfolding new_load_balancer
failed_reply_changes_nothing_example =
    failed_reply_changes_nothing env sort headers (gets_route (str "12")) started 404 not_found

digits_zero : is_index (str "0") ≡ true
unfolding is_index
digits_zero = refl

host_given : is_segment (str "a:1") ≡ true
unfolding is_segment eqs
host_given = refl

first_fit-takes :
    (before after : List Endpoint) (e : Endpoint) (method : Str) (path : List Str) (v : Vars)
    → All (Misses method path) before
    → eqs e.method method ≡ true
    → vars_of e.template path ≡ some v
    → first_fit (before ++ e ∷ after) method path ≡ some (e.handler, v)
unfolding first_fit
first_fit-takes [] after e method path v missed same fit = rw (same, fit) refl
first_fit-takes (b ∷ before) after e method path v (inl other, missed) same fit =
    rw other (first_fit-takes before after e method path v missed same fit)
first_fit-takes (b ∷ before) after e method path v (inr unfit, missed) same fit =
    elim (Bool-cases (eqs b.method method)) [
      | inl here ↦ rw (here, unfit) (first_fit-takes before after e method path v missed same fit)
      | inr other ↦ rw other (first_fit-takes before after e method path v missed same fit)
    ]

first_fit-IsRouter : IsRouter first_fit
first_fit-IsRouter = record {
  takes_first = λ before after e method path v clean. first_fit-takes before after e method path v;
}

abbrev codec : Codec
codec = record {
  route = λ body. none;
  backend = λ body. none;
  weight = λ body. some (pos 3);
  unescape = λ host. host;
}

-- A new weight for a backend, under the router that takes the first entry that fits.
endpoint_is_reached_example :
    let (lb', reply) =
      api env sort headers (puts_backend (str "0") (str "a:1") (some (pos 3))) started in
    serve_admin env sort codec first_fit headers
      (str "PUT")
      (str "api" ∷ str "v1" ∷ str "routes" ∷ str "0" ∷ str "backends" ∷ str "a:1" ∷ [])
      []
      started
    ≡ (lb', some reply)
unfolding documented
endpoint_is_reached_example =
    endpoint_is_reached env sort codec first_fit first_fit-IsRouter update_backend
      (record { index = str "0"; host = str "a:1" }) headers [] started digits_zero host_given
