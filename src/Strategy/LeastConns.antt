-- ===== src/Strategy/LeastConns.antt =====
-- GetNextBackendByLeastConns and GetNextBackendByWeightedLeastConns of internal/lb/strategy.go: which
-- backend they pick.
use go_load_balancer.Prelude.{
  ℕ, suc, ◌-◌, ◌^◌, ◌<◌, ◌≡◌, refl, sym, ◌∙◌, ◌⊎◌, inl, inr, true, false, Option, none, some, List,
  [], ◌∷◌, arith, ltb, Bool-cases, get_elem?, All-get_elem?,
}
use go_load_balancer.Extern.{Env, FloatOps, IsFloat}
use go_load_balancer.Config.{Float64}
use go_load_balancer.Backend.{Backend, BackendPool, get_connections}
use go_load_balancer.Strategy.{
  available, skipped, least_conns_loop, get_next_by_least_conns, score, weighted_least_loop,
  get_next_by_weighted_least_conns,
}
use go_load_balancer.Strategy.Argmin.{argmin, better, argmin_lem, argmin-picked, IsLeast, Picks}

module _ {Cb : Type 0} where
  abbrev pub FewerConns : Backend Cb → Backend Cb → Type 0
  FewerConns c b = c.connections < b.connections

module _ {Cb : Type 0} (env : Env Cb) where
  -- The two tests are each other's negation.
  pub skipped-available : (b : Backend Cb) → skipped env b ≡ false → available env b ≡ true
  unfolding skipped available
  skipped-available b h = ground arith

  pub available-skipped : (b : Backend Cb) → available env b ≡ true → skipped env b ≡ false
  unfolding skipped available
  available-skipped b h = ground arith

  least_conns_loop-argmin :
      (i : ℕ) (best : Option ℕ) (m : ℕ) (bs : List (Backend Cb))
      → least_conns_loop env i best m bs ≡ argmin (skipped env) get_connections ltb i best m bs
  unfolding least_conns_loop argmin better
  least_conns_loop-argmin i best m [] = refl
  least_conns_loop-argmin i best m (b ∷ bs) = least_conns_loop-argmin (suc i) _ _ bs

  weighted_least_loop-argmin :
      (f : FloatOps) (i : ℕ) (best : Option ℕ) (m : Float64) (bs : List (Backend Cb))
      → weighted_least_loop env f i best m bs ≡ argmin (skipped env) (score env f) f.lt i best m bs
  unfolding weighted_least_loop argmin better
  weighted_least_loop-argmin f i best m [] = refl
  weighted_least_loop-argmin f i best m (b ∷ bs) = weighted_least_loop-argmin f (suc i) _ _ bs

  fewest_cases :
      (bs : List (Backend Cb))
      → let r = least_conns_loop env 0 none (2 ^ 64 - 1) bs in
        ((r ≡ none) × IsLeast (skipped env) get_connections ltb (2 ^ 64 - 1) bs)
        ⊎ Picks (skipped env) get_connections ltb 0 (2 ^ 64 - 1) bs r
  fewest_cases bs = rw (least_conns_loop-argmin 0 none (2 ^ 64 - 1) bs) (
      argmin_lem (skipped env) get_connections ltb (λ a. ground arith) (λ a b c h k. ground arith) 0
        none (2 ^ 64 - 1) bs)

  lowest_cases :
      (f : FloatOps)
      → IsFloat f
      → (bs : List (Backend Cb))
      → let r = weighted_least_loop env f 0 none f.inf bs in
        ((r ≡ none) × IsLeast (skipped env) (score env f) f.lt f.inf bs)
        ⊎ Picks (skipped env) (score env f) f.lt 0 f.inf bs r
  lowest_cases f laws bs =
      rw (weighted_least_loop-argmin f 0 none f.inf bs)
        (argmin_lem (skipped env) (score env f) f.lt laws.lt_irrefl laws.lt_trans 0 none f.inf bs)

  -- The answer is an available backend, and no available backend relates to it by `Below`.
  abbrev pub LeastBy : (Backend Cb → Backend Cb → Type 0) → BackendPool Cb → Option ℕ → Type 0
  LeastBy Below p r =
      (i : ℕ) × (b : Backend Cb) × (r ≡ some i)
      × (get_elem? p.backends i ≡ some b)
      × (available env b ≡ true)
      × ((j : ℕ) (c : Backend Cb)
          → get_elem? p.backends j ≡ some c
          → available env c ≡ true
          → ¬ Below c b)

  abbrev pub LowerScore : FloatOps → Backend Cb → Backend Cb → Type 0
  LowerScore f c b = f.lt (score env f c) (score env f b) ≡ true

  -- If some available backend has fewer than 2^64 - 1 connections, GetNextBackendByLeastConns picks
  -- an available backend, and no available backend has fewer connections.
  pub least_conns_picks_least :
      (p : BackendPool Cb) (i : ℕ) (b : Backend Cb)
      → get_elem? p.backends i ≡ some b
      → available env b ≡ true
      → b.connections < 2 ^ 64 - 1
      → LeastBy FewerConns p (get_next_by_least_conns env p)
  unfolding get_next_by_least_conns get_connections
  least_conns_picks_least p i b found up room = elim (fewest_cases p.backends) [
    | inl (e, least) ↦
        absurd (ground (arith, All-get_elem? _ p.backends i least found (available-skipped b up)))
    | inr (j, c, e, at_j, used, less, least) ↦ (
      j,
      c,
      ground arith,
      at_j,
      skipped-available c used,
      λ k d at_k up_d fewer.
          ground (arith, All-get_elem? _ p.backends k least at_k (available-skipped d up_d)),
    )
  ]

  score-finite :
      (f : FloatOps)
      → IsFloat f
      → (b : Backend Cb) → b.connections < 2 ^ 64
      → f.lt (score env f b) f.inf ≡ true
  unfolding score get_connections
  score-finite f laws b h = elim (Bool-cases (f.is_zero (f.of_int b.weight))) [
    | inl zero_weight ↦ rw (zero_weight, score) (laws.quotient_one b.connections h)
    | inr weight ↦ rw (weight, score) (laws.quotient_int b.connections b.weight h weight)
  ]

  -- If the floating-point operations obey IEEE 754 and some available backend's count is a uint64,
  -- GetNextBackendByWeightedLeastConns picks an available backend, and no available backend has a
  -- lower score.
  pub weighted_least_picks_least :
      (f : FloatOps)
      → IsFloat f
      → (p : BackendPool Cb) (i : ℕ) (b : Backend Cb) → get_elem? p.backends i ≡ some b
      → available env b ≡ true
      → b.connections < 2 ^ 64
      → LeastBy (LowerScore f) p (get_next_by_weighted_least_conns env f p)
  unfolding get_next_by_weighted_least_conns
  weighted_least_picks_least f laws p i b found up room = elim (lowest_cases f laws p.backends) [
    | inl (e, least) ↦ absurd (
        cc (
          All-get_elem? _ p.backends i least found (available-skipped b up),
          score-finite f laws b room,
        ))
    | inr (j, c, e, at_j, used, less, least) ↦ (
      j,
      c,
      ground arith,
      at_j,
      skipped-available c used,
      λ k d at_k up_d lower.
          cc (All-get_elem? _ p.backends k least at_k (available-skipped d up_d)),
    )
  ]

  -- Whatever the two loops answer is available.
  pub least_conns_sound :
      (p : BackendPool Cb) (i : ℕ)
      → get_next_by_least_conns env p ≡ some i
      → (b : Backend Cb) × (get_elem? p.backends i ≡ some b) × (available env b ≡ true)
  unfolding get_next_by_least_conns
  least_conns_sound p i e =
      let (b, found, used) =
        argmin-picked (skipped env) get_connections ltb (2 ^ 64 - 1) p.backends i
          (sym (least_conns_loop-argmin 0 none (2 ^ 64 - 1) p.backends) ∙ e) in
      (b, found, skipped-available b used)

  pub weighted_least_sound :
      (f : FloatOps) (p : BackendPool Cb) (i : ℕ)
      → get_next_by_weighted_least_conns env f p ≡ some i
      → (b : Backend Cb) × (get_elem? p.backends i ≡ some b) × (available env b ≡ true)
  unfolding get_next_by_weighted_least_conns
  weighted_least_sound f p i e =
      let (b, found, used) =
        argmin-picked (skipped env) (score env f) f.lt f.inf p.backends i
          (sym (weighted_least_loop-argmin f 0 none f.inf p.backends) ∙ e) in
      (b, found, skipped-available b used)
