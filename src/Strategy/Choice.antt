-- ===== src/Strategy/Choice.antt =====
-- GetNextBackend: what holds of the answer under every strategy.
use go_load_balancer.Prelude.{
  ℕ, ◌+◌, ◌-◌, ◌%◌, ◌^◌, ◌<◌, ◌≡◌, refl, ap, sym, ◌∙◌, inl, inr, true, Option, none, some, List,
  map, arith, Bool-cases, get_elem?, length, All-get_elem?,
}
use go_load_balancer.Prelude.Int.{ℤ}
use go_load_balancer.Text.{Str, str, eqs, is_empty}
use go_load_balancer.Extern.{Env, FloatOps, IsFloat}
use go_load_balancer.Backend.{Backend, BackendPool}
use go_load_balancer.Strategy.{
  available, raised, get_next_by_ip, get_next_by_least_conns, get_next_by_weighted_least_conns,
  get_next_by_round_robin, get_next_by_weighted_round_robin, get_next_backend, clean_ip,
}
use go_load_balancer.Strategy.IpHash.{AvailableAt, get_next_by_ip-available, get_next_by_ip_sound}
use go_load_balancer.Strategy.LeastConns.{
  least_conns_sound, weighted_least_sound, least_conns_picks_least, weighted_least_picks_least,
  available-skipped,
}
use go_load_balancer.Strategy.RoundRobin.{
  round_robin_sound, round_robin-backends, round_robin_finds,
}
use go_load_balancer.Strategy.Weighted.Loop.{
  weighted_answer, weighted_pool, lowered, pick, pick-available, pick-cases,
}
use go_load_balancer.Strategy.Weighted.Tracks.{forget, forget-raised, forget-lowered}

module _ {Cb : Type 0} (env : Env Cb) where
  -- What every choice owes: the answer is available, and nothing of the backends but their current
  -- weights has changed, nor has the strategy.
  abbrev pub IsSound : BackendPool Cb → BackendPool Cb × Option ℕ → Type 0
  IsSound p (p', r) =
      ((i : ℕ) → r ≡ some i → AvailableAt env p.backends i)
      × (map forget p'.backends ≡ map forget p.backends)
      × (p'.strategy ≡ p.strategy)

  round_robin-IsSound : (p : BackendPool Cb) → IsSound p (get_next_by_round_robin env p)
  round_robin-IsSound p =
      let (same, kept) = round_robin-backends env p in
      (round_robin_sound env p, ap (map forget) same, kept)

  forget-left :
      (total : ℤ) (bs : List (Backend Cb)) (r : Option ℕ)
      → map forget (lowered env total bs r) ≡ map forget bs
  forget-left total bs none = refl
  forget-left total bs (some i) = forget-lowered env total bs i

  weighted-IsSound : (p : BackendPool Cb) → IsSound p (get_next_by_weighted_round_robin env p)
  weighted-IsSound p =
      let (total, left) = weighted_pool env p in
      let answer = weighted_answer env p in
      (
        λ i e. pick-available env p.backends i (sym answer ∙ e),
        ap (λ (q : BackendPool Cb). map forget q.backends) left
            ∙ forget-left total (map (raised env) p.backends) (pick env p.backends)
            ∙ forget-raised env p.backends,
        ap (λ (q : BackendPool Cb). q.strategy) left,
      )

  weighted_finds :
      (p : BackendPool Cb) (j : ℕ) (b : Backend Cb)
      → get_elem? p.backends j ≡ some b
      → available env b ≡ true
      → (i : ℕ) × ((get_next_by_weighted_round_robin env p).1 ≡ some i)
  weighted_finds p j b found up = elim (pick-cases env p.backends) [
    | inl (e, least) ↦
        absurd (cc (All-get_elem? _ p.backends j least found (available-skipped env b up)))
    | inr (i, c, e, _, _, _, _) ↦ (0 + i, weighted_answer env p ∙ e)
  ]

  module _ (f : FloatOps) where
    -- The five ways through the switch.
    by_strategy {ℓ} :
        (P : BackendPool Cb × Option ℕ → Type ℓ) (client_ip : Str) (p : BackendPool Cb)
        → P (get_next_by_round_robin env p)
        → P (p, get_next_by_ip env (clean_ip env f client_ip) p)
        → P (p, get_next_by_least_conns env p)
        → P (p, get_next_by_weighted_least_conns env f p)
        → P (get_next_by_weighted_round_robin env p)
        → P (get_next_backend env f client_ip p)
    unfolding get_next_backend
    by_strategy P client_ip p turn hash least weighted_least weighted =
        elim (Bool-cases (eqs p.strategy (str "ip-hash"))) [
          | inl e ↦ rw e (elim (Bool-cases (is_empty client_ip)) [
            | inl no_ip ↦ rw no_ip turn
            | inr ip ↦ rw ip hash
          ])
          | inr e ↦ rw e (elim (Bool-cases (eqs p.strategy (str "least-connections"))) [
            | inl e ↦ rw e least
            | inr e ↦ rw e (elim (Bool-cases (eqs p.strategy (str "weighted-least-connections"))) [
              | inl e ↦ rw e weighted_least
              | inr e ↦ rw e (elim (Bool-cases (eqs p.strategy (str "weighted-round-robin"))) [
                | inl e ↦ rw e weighted
                | inr e ↦ rw e turn
              ])
            ])
          ])
        ]

    -- Under every strategy, for every client, GetNextBackend answers an available backend of the
    -- pool or none, and changes nothing of the pool but the counter and the current weights.
    pub get_next_backend-IsSound :
        (client_ip : Str) (p : BackendPool Cb) → IsSound p (get_next_backend env f client_ip p)
    get_next_backend-IsSound client_ip p =
        by_strategy (IsSound p) client_ip p (round_robin-IsSound p)
          (get_next_by_ip_sound env (clean_ip env f client_ip) p, refl, refl)
          (least_conns_sound env p, refl, refl) (weighted_least_sound env f p, refl, refl)
          (weighted-IsSound p)

    -- If the floating-point operations obey IEEE 754, some backend is available with fewer than
    -- 2^64 - 1 connections, and the counter does not wrap during the call, then GetNextBackend
    -- answers some backend, under every strategy and for every client.
    pub get_next_backend_finds :
        (client_ip : Str) (p : BackendPool Cb) (j : ℕ) (b : Backend Cb)
        → IsFloat f
        → get_elem? p.backends j ≡ some b
        → available env b ≡ true
        → b.connections < 2 ^ 64 - 1
        → p.current + length p.backends < 2 ^ 64
        → (i : ℕ) × ((get_next_backend env f client_ip p).1 ≡ some i)
    get_next_backend_finds client_ip p j b laws found up few room =
        let (m, _, _, _, _, turn, _, _, _) = round_robin_finds env p j b found up room in
        let (h, hash, _) =
          get_next_by_ip-available env (clean_ip env f client_ip) p j (b, found, up) in
        let (l, _, least, _, _, _) = least_conns_picks_least env p j b found up few in
        let (w, _, weighted_least, _, _, _) =
          weighted_least_picks_least env f laws p j b found up (omega arith) in
        by_strategy (λ r. (i : ℕ) × (r.1 ≡ some i)) client_ip p (m % length p.backends, turn)
          (h, hash) (l, least) (w, weighted_least) (weighted_finds p j b found up)
