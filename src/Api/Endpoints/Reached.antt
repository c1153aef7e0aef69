-- ===== src/Api/Endpoints/Reached.antt =====
-- The table of StartAdminServer in internal/lb/admin.go: that each of its handlers is reached.
use mathlib.Core.List.{append_assoc}
use go_load_balancer.Prelude.{
  ◌≡◌, refl, ap, subst, ◌∙◌, inl, inr, true, some, List, [], ◌∷◌, ◌++◌, arith, All, Bool-cases,
  Option-cases, All-append,
}
use go_load_balancer.Text.{Str, str, eqs}
use go_load_balancer.Extern.{Env}
use go_load_balancer.Balancer.{LoadBalancer, Sort}
use go_load_balancer.Api.{
  Call, gets_routes, posts_route, gets_route, deletes_route, posts_backend, deletes_backend,
  puts_backend, api,
}
use go_load_balancer.Api.Endpoints.{
  Handler, get_routes, add_route, get_route, delete_route, add_backend, delete_backend,
  update_backend, Endpoint, method_of, template_of, endpoint, endpoints, Vars, all_digits, is_index,
  no_slash, is_segment, is_host, with_vars, vars_of, first_fit, Misses, Router, IsRouter, Codec,
  call_of, serve_admin,
}

-- The admin API as a client has it: for each of its seven requests the method, the segments of the
-- path, and what is asked of the load balancer.
pub record Documented : Type 0 where
  pub method : Str
  pub path : List Str
  pub call : Call

abbrev under_routes : List Str → List Str
under_routes rest = str "api" ∷ str "v1" ∷ str "routes" ∷ rest

unfoldable pub documented : Codec → Handler → Vars → Str → Documented
documented codec get_routes v body = record {
  method = str "GET";
  path = under_routes [];
  call = gets_routes;
}
documented codec add_route v body = record {
  method = str "POST";
  path = under_routes [];
  call = posts_route (codec.route body);
}
documented codec get_route v body = record {
  method = str "GET";
  path = under_routes (v.index ∷ []);
  call = gets_route v.index;
}
documented codec delete_route v body = record {
  method = str "DELETE";
  path = under_routes (v.index ∷ []);
  call = deletes_route v.index;
}
documented codec add_backend v body = record {
  method = str "POST";
  path = under_routes (v.index ∷ str "backends" ∷ []);
  call = posts_backend v.index (codec.backend body);
}
documented codec delete_backend v body = record {
  method = str "DELETE";
  path = under_routes (v.index ∷ str "backends" ∷ v.host ∷ []);
  call = deletes_backend v.index (codec.unescape v.host);
}
documented codec update_backend v body = record {
  method = str "PUT";
  path = under_routes (v.index ∷ str "backends" ∷ v.host ∷ []);
  call = puts_backend v.index (codec.unescape v.host) (codec.weight body);
}

-- The variables that the template of a handler has.
kept : Handler → Vars → Vars
kept get_routes v = record { index = []; host = [] }
kept add_route v = record { index = []; host = [] }
kept get_route v = record v { host = [] }
kept delete_route v = record v { host = [] }
kept add_backend v = record v { host = [] }
kept delete_backend v = v
kept update_backend v = v

digits-no_slash : (s : Str) → all_digits s ≡ true → no_slash s ≡ true
unfolding all_digits no_slash
digits-no_slash [] h = refl
digits-no_slash (c ∷ s) h = ground (arith, digits-no_slash s)

index-is_segment : (s : Str) → is_index s ≡ true → is_segment s ≡ true
unfolding is_index all_digits is_segment no_slash eqs
index-is_segment [] h = ground (arith, h)
index-is_segment (c ∷ s) h = ground (arith, digits-no_slash s)

segment-is_host : (s : Str) → is_segment s ≡ true → is_host s ≡ true
unfolding is_segment is_host
segment-is_host [] h = ground (arith, h)
segment-is_host (c ∷ s) h = ground arith

-- The paths of the API are clean.
documented-clean :
    (codec : Codec) (h : Handler) (v : Vars) (body : Str)
    → is_index v.index ≡ true
    → is_segment v.host ≡ true
    → All (λ s. is_segment s ≡ true) (documented codec h v body).path
unfolding documented is_segment no_slash eqs
documented-clean codec get_routes v body digits given = (refl, (refl, (refl, tt)))
documented-clean codec add_route v body digits given = (refl, (refl, (refl, tt)))
documented-clean codec get_route v body digits given =
    (refl, (refl, (refl, (index-is_segment v.index digits, tt))))
documented-clean codec delete_route v body digits given =
    (refl, (refl, (refl, (index-is_segment v.index digits, tt))))
documented-clean codec add_backend v body digits given =
    (refl, (refl, (refl, (index-is_segment v.index digits, (refl, tt)))))
documented-clean codec delete_backend v body digits given =
    (refl, (refl, (refl, (index-is_segment v.index digits, (refl, (given, tt))))))
documented-clean codec update_backend v body digits given =
    (refl, (refl, (refl, (index-is_segment v.index digits, (refl, (given, tt))))))

-- The first entry that fits such a request is that of its handler.
first_fit-documented :
    (codec : Codec) (h : Handler) (v : Vars) (body : Str)
    → is_index v.index ≡ true
    → is_segment v.host ≡ true
    → let d = documented codec h v body in first_fit endpoints d.method d.path ≡ some (h, kept h v)
unfolding endpoints endpoint method_of template_of documented first_fit vars_of with_vars eqs kept
first_fit-documented codec get_routes v body digits given = refl
first_fit-documented codec add_route v body digits given = refl
first_fit-documented codec get_route v body digits given = rw digits refl
first_fit-documented codec delete_route v body digits given = rw digits refl
first_fit-documented codec add_backend v body digits given = rw digits refl
first_fit-documented codec delete_backend v body digits given =
    rw (digits, segment-is_host v.host given, digits) refl
first_fit-documented codec update_backend v body digits given =
    rw (digits, segment-is_host v.host given) refl

call_of-kept :
    (codec : Codec) (h : Handler) (v : Vars) (body : Str)
    → call_of codec h (kept h v) body ≡ (documented codec h v body).call
unfolding call_of kept documented
call_of-kept codec get_routes v body = refl
call_of-kept codec add_route v body = refl
call_of-kept codec get_route v body = refl
call_of-kept codec delete_route v body = refl
call_of-kept codec add_backend v body = refl
call_of-kept codec delete_backend v body = refl
call_of-kept codec update_backend v body = refl

module _ (router : Router) (laws : IsRouter router) (method : Str) (path : List Str)
    (clean : All (λ s. is_segment s ≡ true) path) where
  -- Behind entries that miss, the router takes the first that fits.
  takes-first_fit :
      (before es : List Endpoint) (found : Handler × Vars)
      → All (Misses method path) before
      → first_fit es method path ≡ some found
      → router (before ++ es) method path ≡ some found
  unfolding first_fit
  takes-first_fit before [] found missed fits = ground (arith, fits)
  takes-first_fit before (e ∷ es) found missed fits =
      let later : Misses method path e
          → first_fit es method path ≡ some found
          → router (before ++ e ∷ es) method path ≡ some found =
        λ miss rest.
          subst (λ all. router all method path ≡ some found) (append_assoc before (e ∷ []) es)
            (takes-first_fit (before ++ e ∷ []) es found
              (All-append (Misses method path) before (e ∷ []) missed (miss, tt)) rest) in
      elim (Bool-cases (eqs e.method method)) [
        | inl same ↦ elim (Option-cases (vars_of e.template path)) [
          | inl unfit ↦ later (inr unfit) (rw (same, unfit) at fits)
          | inr (v, fit) ↦
              laws.takes_first before es e method path v clean missed same fit
              ∙ rw (same, fit) at fits
        ]
        | inr other ↦ later (inl other) (rw other at fits)
      ]

module _ {Cb : Type 0} (env : Env Cb) (sort : Sort Cb) (codec : Codec) (router : Router) where
  reached :
      (header : Str → Str) (method : Str) (path : List Str) (h : Handler) (v : Vars) (body : Str)
      (lb : LoadBalancer Cb)
      → router endpoints method path ≡ some (h, v)
      → let (lb', reply) = api env sort header (call_of codec h v body) lb in
        serve_admin env sort codec router header method path body lb ≡ (lb', some reply)
  unfolding serve_admin
  reached header method path h v body lb e = rw (e, serve_admin) refl

  -- Each of the seven requests of the admin API, by its method and path, comes to what is asked of the
  -- load balancer, behind the authentication, with an index of digits and a host that is one segment
  -- of a clean path, under a router that does on clean paths what mux documents.
  pub endpoint_is_reached :
      IsRouter router
      → (h : Handler) (v : Vars) (header : Str → Str) (body : Str) (lb : LoadBalancer Cb)
      → is_index v.index ≡ true
      → is_segment v.host ≡ true
      → let d = documented codec h v body in
        let (lb', reply) = api env sort header d.call lb in
        serve_admin env sort codec router header d.method d.path body lb ≡ (lb', some reply)
  endpoint_is_reached laws h v header body lb digits given =
      let d = documented codec h v body in
      reached header d.method d.path h (kept h v) body lb (
        takes-first_fit router laws d.method d.path (documented-clean codec h v body digits given)
          [] endpoints (h, kept h v) tt (first_fit-documented codec h v body digits given))
      ∙ ap (λ call. let (lb', reply) = api env sort header call lb in (lb', some reply))
          (call_of-kept codec h v body)
