-- ===== src/Balancer/Choice.antt =====
-- The loop of ServeHTTP over the routes that buildL7Routes has sorted: which route serves a request.
use go_load_balancer.Prelude.{
  ℕ, suc, ◌≡◌, refl, subst, ◌≤◌, true, false, Option, none, some, List, [], ◌∷◌, arith, Bool-cases,
  inl, inr, All, All-get_elem?, get_elem?, length,
}
use go_load_balancer.Text.{is_empty}
use go_load_balancer.Config.{Config, ListenerConfig, RouteConfig}
use go_load_balancer.Extern.{Env}
use go_load_balancer.Route.{Request, Route, matches, before, first_match}
use go_load_balancer.Route.Order.{
  IsOrder, Sorted, IsSort, Reorders, Reorders-sym, Reorders-get_elem?, before-IsOrder,
}
use go_load_balancer.Balancer.{Sort, less, listeners, unsorted_routes, build_l7_routes}

-- A route is as specific as another: it names a host if that does, and, of two that both name a host
-- or both name none, its path is not the shorter.
pub record AsSpecific (chosen other : RouteConfig) : Type 0 where
  pub named : is_empty chosen.host ≡ true → is_empty other.host ≡ true
  pub longest : is_empty other.host ≡ is_empty chosen.host → length other.path ≤ length chosen.path

not-before-AsSpecific : (c o : RouteConfig) → before o c ≡ false → AsSpecific c o
unfolding before
not-before-AsSpecific c o h = record { named = λ e. ground arith; longest = λ e. ground arith }

module _ {Cb : Type 0} (r : Request) where
  -- What is chosen of a list of routes: a route of the list that matches and is as specific as any
  -- other that does, or none if none matches.
  abbrev pub IsChoice : List (Route Cb) → Option (ℕ × Route Cb) → Type 0
  IsChoice routes none =
      (j : ℕ) (o : Route Cb) → get_elem? routes j ≡ some o → matches o.config r ≡ false
  IsChoice routes (some (i, c)) =
      ((j : ℕ) × (get_elem? routes j ≡ some c))
      × (matches c.config r ≡ true)
      × ((j : ℕ) (o : Route Cb)
          → get_elem? routes j ≡ some o
          → matches o.config r ≡ true
          → AsSpecific c.config o.config)

  first_match-none :
      (i : ℕ) (routes : List (Route Cb))
      → first_match r i routes ≡ none
      → All (λ o. matches o.config r ≡ false) routes
  unfolding first_match
  first_match-none i [] h = tt
  first_match-none i (o ∷ routes) h = ground (arith, first_match-none (suc i) routes)

  -- The first match of a list in order.
  record IsFirst (routes : List (Route Cb)) (c : Route Cb) : Type 0 where
    there : (j : ℕ) × (get_elem? routes j ≡ some c)
    matching : matches c.config r ≡ true
    first : All (λ o. matches o.config r ≡ true → less o c ≡ false) routes

  -- A route behind one that does not match.
  IsFirst-behind :
      (o c : Route Cb) (routes : List (Route Cb))
      → matches o.config r ≡ false
      → IsFirst routes c
      → IsFirst (o ∷ routes) c
  IsFirst-behind o c routes h f = record {
    there = (suc f.there.0, f.there.1);
    matching = f.matching;
    first = ((λ e. absurd (cc (e, h))), f.first);
  }

  forget_matching :
      (c : Route Cb) (routes : List (Route Cb))
      → All (λ o. less o c ≡ false) routes
      → All (λ o. matches o.config r ≡ true → less o c ≡ false) routes
  forget_matching c [] h = tt
  forget_matching c (o ∷ routes) h = ((λ e. h.0), forget_matching c routes h.1)

  first_match-IsFirst :
      (i : ℕ) (routes : List (Route Cb)) (k : ℕ) (c : Route Cb)
      → Sorted less routes
      → first_match r i routes ≡ some (k, c)
      → IsFirst routes c
  unfolding first_match
  first_match-IsFirst i [] k c s h = cc
  first_match-IsFirst i (o ∷ routes) k c s h = elim (Bool-cases (matches o.config r)) [
    | inl hit ↦ subst (IsFirst (o ∷ routes)) (ground arith) (record {
      there = (0, refl);
      matching = hit;
      first = ((λ e. before-IsOrder.irrefl o.config), forget_matching o routes s.0);
    })
    | inr miss ↦
        IsFirst-behind o c routes miss (first_match-IsFirst (suc i) routes k c s.1 (ground arith))
  ]

  -- What the first match of a list in order is among the elements, in any order.
  reordered-IsChoice :
      (xs ys : List (Route Cb)) (result : Option (ℕ × Route Cb))
      → Reorders xs ys
      → Sorted less ys
      → first_match r 0 ys ≡ result
      → IsChoice xs result
  reordered-IsChoice xs ys none d s e = λ j o there.
      (let (k, moved) = Reorders-get_elem? d j o there in
        All-get_elem? (λ o. matches o.config r ≡ false) ys k (first_match-none 0 ys e) moved)
  reordered-IsChoice xs ys (some (i, c)) d s e =
      let f = first_match-IsFirst 0 ys i c s e in
      (
        Reorders-get_elem? (Reorders-sym d) f.there.0 c f.there.1,
        f.matching,
        λ j o there hit.
            (let (k, moved) = Reorders-get_elem? d j o there in
              not-before-AsSpecific c.config o.config (
                All-get_elem? (λ o. matches o.config r ≡ true → less o c ≡ false) ys k f.first moved
                  hit)),
      )

pub less-IsOrder : {Cb : Type 0} → IsOrder {A = Route Cb} less
less-IsOrder = record {
  irrefl = λ a. before-IsOrder.irrefl a.config;
  trans = λ a b c. before-IsOrder.trans a.config b.config c.config;
  cotrans = λ a b c. before-IsOrder.cotrans a.config b.config c.config;
}

module _ {Cb : Type 0} (env : Env Cb) (sort : Sort Cb) (s : IsSort sort)
    (heap : List ListenerConfig) (cfg : Config) (r : Request) where
  -- Of all the routes of the HTTP and HTTPS listeners, the one that serves a request is one that
  -- matches it; it names a host if any that matches does, and its path is the longest among those
  -- that match and name a host as it does, or name none as it does. If no route is found, none
  -- matches.
  pub first_match_most_specific :
      IsChoice r
        (unsorted_routes env sort cfg (listeners heap cfg.listeners))
        (first_match r 0 (build_l7_routes env sort heap cfg))
  unfolding build_l7_routes
  first_match_most_specific =
      let routes = unsorted_routes env sort cfg (listeners heap cfg.listeners) in
      let (d, o) = s.sorts less less-IsOrder routes in
      reordered-IsChoice r routes (sort less routes) _ d o refl
