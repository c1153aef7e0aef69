-- ===== src/Strategy.antt =====
-- internal/lb/strategy.go: the choice of a backend by each strategy. A chosen `*Backend` is its
-- position in the pool. The children prove what each strategy promises.
pub mod Fnv
pub mod Argmin
pub mod LeastConns
pub mod RoundRobin
pub mod Weighted
pub mod IpHash
pub mod Choice
mod Examples
use Prim.Native.Nat.{bit_xor}
use go_load_balancer.Prelude.{
  ℕ, zero, suc, ◌+◌, ◌-◌, ◌*◌, ◌%◌, ◌^◌, Bool, true, false, not, ◌&&◌, ◌||◌, Option, none, some,
  List, [], ◌∷◌, map, ltb, ◌==◌, if◌then◌else◌, length, get_elem?, modify,
}
use go_load_balancer.Prelude.Int.{ℤ, pos, ltb_ℤ, add64, sub64}
use go_load_balancer.Text.{Str, str, eqs, is_empty, split_host_port}
use go_load_balancer.Config.{Float64}
use go_load_balancer.Extern.{Env, FloatOps}
use go_load_balancer.Backend.{Backend, BackendPool, add_u64, is_healthy, get_connections}
use go_load_balancer.Pool.{cb_open}
use Fnv.{sum32a}

-- The variables of GetNextBackendByWeightedRoundRobin. `best` holds the position of bestBackend
-- and its CurrentWeight.
pub record Scan : Type 0 where
  pub best : Option (ℕ × ℤ)
  pub total_weight : ℤ

-- bestBackend == nil || backend.CurrentWeight > bestBackend.CurrentWeight
beats : ℤ → Option (ℕ × ℤ) → Bool
beats w none = true
beats w (some (i, best)) = ltb_ℤ best w

module _ {Cb : Type 0} where
  -- backend.CurrentWeight += backend.Weight
  pub raise_weight : Backend Cb → Backend Cb
  raise_weight b = record b { current_weight = add64 b.current_weight b.weight }

  visit : ℕ → Backend Cb → Scan → Scan
  visit i b s =
      let w = (raise_weight b).current_weight in
      record {
        best = if beats w s.best then some (i, w) else s.best;
        total_weight = add64 s.total_weight b.weight;
      }

  pub lower_weight : ℤ → Backend Cb → Backend Cb
  lower_weight total b = record b { current_weight = sub64 b.current_weight total }

  settle_weights : BackendPool Cb → List (Backend Cb) × Scan → BackendPool Cb × Option ℕ
  settle_weights p (bs, s) = elim s.best [
    | none ↦ (record p { backends = bs }, none)
    | some (i, w) ↦ (record p { backends = modify bs i (lower_weight s.total_weight) }, some i)
  ]

module _ {Cb : Type 0} (env : Env Cb) where
  -- The test of GetNextBackendByIP and GetNextBackendByRoundRobin.
  unfoldable pub available : Backend Cb → Bool
  unfolding is_healthy cb_open
  available b = is_healthy b && not (cb_open env b.cb)

  -- The test by which the other loops `continue`.
  unfoldable pub skipped : Backend Cb → Bool
  unfolding is_healthy cb_open
  skipped b = not (is_healthy b) || cb_open env b.cb

  -- The positions of the available backends, from position `i` on.
  healthy_backends : ℕ → List (Backend Cb) → List ℕ
  healthy_backends i [] = []
  healthy_backends i (b ∷ bs) =
      let rest = healthy_backends (suc i) bs in if available b then i ∷ rest else rest

  pub get_next_by_ip : Str → BackendPool Cb → Option ℕ
  unfolding healthy_backends
  get_next_by_ip ip p =
      let healthy = healthy_backends 0 p.backends in get_elem? healthy (sum32a ip % length healthy)

  -- The loop of GetNextBackendByLeastConns: the position, the best so far and its count.
  least_conns_loop : ℕ → Option ℕ → ℕ → List (Backend Cb) → Option ℕ
  least_conns_loop i best min_connections [] = best
  least_conns_loop i best min_connections (b ∷ bs) =
      let better = not (skipped b) && ltb (get_connections b) min_connections in
      least_conns_loop (suc i) (if better then some i else best)
        (if better then get_connections b else min_connections) bs

  unfoldable pub get_next_by_least_conns : BackendPool Cb → Option ℕ
  unfolding least_conns_loop
  get_next_by_least_conns p = least_conns_loop 0 none (2 ^ 64 - 1) p.backends

  available_at : List (Backend Cb) → ℕ → Bool
  available_at bs i = elim (get_elem? bs i) [ none ↦ false | some b ↦ available b ]

  -- The loop of GetNextBackendByRoundRobin with the rounds that are left. The counter is the pool's.
  round_robin_loop : ℕ → List (Backend Cb) → ℕ → ℕ × Option ℕ
  unfolding available_at
  round_robin_loop zero bs current = (current, none)
  round_robin_loop (suc rounds) bs current =
      let next = add_u64 current 1 in
      let index = next % length bs in
      let rest = round_robin_loop rounds bs next in
      if available_at bs index then (next, some index) else rest

  pub get_next_by_round_robin : BackendPool Cb → BackendPool Cb × Option ℕ
  unfolding round_robin_loop
  get_next_by_round_robin p =
      let (current, chosen) = round_robin_loop (length p.backends) p.backends p.current in
      (record p { current = current }, chosen)

  -- The body of the loop: what it leaves of the variables and of the backend.
  visited : ℕ → Backend Cb → Scan → Scan
  visited i b s = if skipped b then s else visit i b s

  pub raised : Backend Cb → Backend Cb
  raised b = if skipped b then b else raise_weight b

  pub weighted_loop : ℕ → Scan → List (Backend Cb) → List (Backend Cb) × Scan
  weighted_loop i s [] = ([], s)
  weighted_loop i s (b ∷ bs) =
      let (bs', s') = weighted_loop (suc i) (visited i b s) bs in (raised b ∷ bs', s')

  pub get_next_by_weighted_round_robin : BackendPool Cb → BackendPool Cb × Option ℕ
  unfolding weighted_loop visited visit raised raise_weight beats settle_weights lower_weight
  get_next_by_weighted_round_robin p =
      settle_weights p (weighted_loop 0 (record { best = none; total_weight = pos 0 }) p.backends)

  module _ (f : FloatOps) where
    -- connections divided by the weight, or by one if that is zero.
    pub score : Backend Cb → Float64
    score b =
        let weight = f.of_int b.weight in
        f.div (f.of_uint (get_connections b)) (if f.is_zero weight then f.one else weight)

    weighted_least_loop : ℕ → Option ℕ → Float64 → List (Backend Cb) → Option ℕ
    unfolding score
    weighted_least_loop i best min_score [] = best
    weighted_least_loop i best min_score (b ∷ bs) =
        let better = not (skipped b) && f.lt (score b) min_score in
        weighted_least_loop (suc i) (if better then some i else best)
          (if better then score b else min_score) bs

    pub get_next_by_weighted_least_conns : BackendPool Cb → Option ℕ
    unfolding weighted_least_loop
    get_next_by_weighted_least_conns p = weighted_least_loop 0 none f.inf p.backends

    -- The address without its port, if it has one.
    clean_ip : Str → Str
    clean_ip ip = elim (split_host_port ip) [ none ↦ ip | some (host, port) ↦ host ]

    -- The `switch` on the strategy. "round-robin" is the default's case.
    unfoldable pub get_next_backend : Str → BackendPool Cb → BackendPool Cb × Option ℕ
    unfolding clean_ip
    get_next_backend client_ip p =
        if eqs p.strategy (str "ip-hash")
        then (if is_empty client_ip
            then get_next_by_round_robin p
            else (p, get_next_by_ip (clean_ip client_ip) p))
        else if eqs p.strategy (str "least-connections")
        then (p, get_next_by_least_conns p)
        else if eqs p.strategy (str "weighted-least-connections")
        then (p, get_next_by_weighted_least_conns p)
        else if eqs p.strategy (str "weighted-round-robin")
        then get_next_by_weighted_round_robin p
        else get_next_by_round_robin p
