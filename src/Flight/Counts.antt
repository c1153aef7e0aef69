-- ===== src/Flight/Counts.antt =====
-- The connection counters of a pool against the requests that are counted at its backends.
use go_load_balancer.Prelude.{
  ℕ, zero, suc, ◌≡◌, ◌-◌, ◌%◌, ◌^◌, refl, ap, sym, ◌∙◌, Bool, true, false, Option, some, List, [],
  ◌∷◌, ◌++◌, arith, ◌==◌, get_elem?, modify, if◌then◌else◌, map, All,
}
use go_load_balancer.Text.{Str}
use go_load_balancer.Extern.{Env, FloatOps}
use go_load_balancer.Backend.{
  Backend, BackendPool, add_u64, increment_connections, decrement_connections,
}
use go_load_balancer.Pool.Health.{run_health_checks-connections}
use go_load_balancer.Strategy.{get_next_backend}
use go_load_balancer.Strategy.Weighted.Tracks.{forget}
use go_load_balancer.Strategy.Choice.{get_next_backend-IsSound}
use go_load_balancer.Flight.{
  Pc, arrived, chosen, counted, done, State, entered, left, tripped, Step, arrives, chooses,
  finds_none, skips, enters, gives_up, leaves, trips, checks, Steps, here, next, move,
}
use go_load_balancer.Flight.Inside.{at, inside, inside-move, inside-append}

modify_id : (ns : List ℕ) (j : ℕ) → modify ns j (λ n. n) ≡ ns
modify_id [] j = refl
modify_id (n ∷ ns) zero = refl
modify_id (n ∷ ns) (suc j) = ap (λ ms. n ∷ ms) (modify_id ns j)

module _ {Cb : Type 0} where
  -- The counters of a pool.
  abbrev pub counters : BackendPool Cb → List ℕ
  counters p = map (λ b. b.connections) p.backends

  counters-modify :
      (g : Backend Cb → Backend Cb) (h : ℕ → ℕ)
      → ((b : Backend Cb) → (g b).connections ≡ h b.connections)
      → (bs : List (Backend Cb)) (j : ℕ)
      → map (λ b. b.connections) (modify bs j g) ≡ modify (map (λ b. b.connections) bs) j h
  counters-modify g h e [] j = refl
  counters-modify g h e (b ∷ bs) zero = ap (λ n. n ∷ map (λ b. b.connections) bs) (e b)
  counters-modify g h e (b ∷ bs) (suc j) =
      ap (λ ns. b.connections ∷ ns) (counters-modify g h e bs j)

  counters-map :
      (g : Backend Cb → Backend Cb)
      → ((b : Backend Cb) → (g b).connections ≡ b.connections)
      → (bs : List (Backend Cb)) → map (λ b. b.connections) (map g bs) ≡ map (λ b. b.connections) bs
  counters-map g e [] = refl
  counters-map g e (b ∷ bs) = rw (e b, counters-map g e bs) refl

-- A number of a list after a write.
modified :
    (ns : List ℕ) (j : ℕ) (h : ℕ → ℕ) (i n : ℕ)
    → get_elem? (modify ns j h) i ≡ some n
    → (m : ℕ) × (get_elem? ns i ≡ some m) × (n ≡ (if i == j then h m else m))
modified [] j h i n e = cc
modified (m ∷ ns) zero h zero n e = (m, refl, ground (arith, e))
modified (m ∷ ns) zero h (suc i) n e = (n, e, ground arith)
modified (m ∷ ns) (suc j) h zero n e = (n, e, ground arith)
modified (m ∷ ns) (suc j) h (suc i) n e =
    let (k, there, v) = modified ns j h i n e in (k, there, ground (arith, v))

get_next_backend-counters :
    {Cb : Type 0} (env : Env Cb) (f : FloatOps) (ip : Str) (p : BackendPool Cb)
    → counters (get_next_backend env f ip p).0 ≡ counters p
unfolding forget
get_next_backend-counters env f ip p =
    let (_, same, _) = get_next_backend-IsSound env f ip p in
    sym (counters-map forget (λ b. refl) (get_next_backend env f ip p).0.backends)
    ∙ ap (map (λ b. b.connections)) same
    ∙ counters-map forget (λ b. refl) p.backends

module _ {Cb : Type 0} (counts : Bool) where
  -- Each counter is the number of the requests that are counted there, modulo 2^64, or 0 where the
  -- strategy does not count.
  abbrev pub CountsInside : State Cb → Type 0
  CountsInside s =
      (i n : ℕ)
      → get_elem? (counters s.pool) i ≡ some n
      → n ≡ (if counts then inside i s.flights else 0) % 2 ^ 64

  -- A move of one request that leaves the counters as they are.
  uncounted :
      (s : State Cb) (p : BackendPool Cb) (k : ℕ) (pc pc' : Pc)
      → counters p ≡ counters s.pool
      → get_elem? s.flights k ≡ some pc
      → ((i : ℕ) → at i pc ≡ 0)
      → ((i : ℕ) → at i pc' ≡ 0)
      → CountsInside s
      → CountsInside (record { pool = p; flights = move s.flights k pc' })
  uncounted s p k pc pc' same there before after inv i n h =
      let e = inv i n (rw same at h) in
      let moved = inside-move i s.flights k pc pc' there in
      ground (arith, e, moved, before i, after i)

  entered-counters :
      (j : ℕ) (p : BackendPool Cb)
      → counters (entered true j p) ≡ modify (counters p) j (λ n. add_u64 n 1)
  unfolding increment_connections
  entered-counters j p =
      counters-modify increment_connections (λ n. add_u64 n 1) (λ b. refl) p.backends j

  left-counters :
      (j : ℕ) (p : BackendPool Cb)
      → counters (left true j p) ≡ modify (counters p) j (λ n. add_u64 n (2 ^ 64 - 1))
  unfolding decrement_connections
  left-counters j p =
      counters-modify decrement_connections (λ n. add_u64 n (2 ^ 64 - 1)) (λ b. refl) p.backends j

  tripped-counters :
      (j : ℕ) (c : Option Cb) (p : BackendPool Cb) → counters (tripped j c p) ≡ counters p
  tripped-counters j c p =
      counters-modify (λ b. record b { cb = c }) (λ n. n) (λ b. refl) p.backends j
      ∙ modify_id (counters p) j

module _ {Cb : Type 0} where
  enters-CountsInside :
      (counts : Bool) (s : State Cb) (k j : ℕ)
      → get_elem? s.flights k ≡ some (chosen j)
      → CountsInside counts s
      → CountsInside counts
          (record { pool = entered counts j s.pool; flights = move s.flights k (counted j) })
  enters-CountsInside false s k j there inv i n h = inv i n h
  enters-CountsInside true s k j there inv i n h =
      let (m, old, v) =
        modified (counters s.pool) j (λ n. add_u64 n 1) i n
          (rw (entered-counters true j s.pool) at h) in
      let e = inv i m old in
      let moved = inside-move i s.flights k (chosen j) (counted j) there in
      ground (arith, e, moved, v)

  leaves-CountsInside :
      (counts : Bool) (s : State Cb) (k j : ℕ)
      → get_elem? s.flights k ≡ some (counted j)
      → CountsInside counts s
      → CountsInside counts
          (record { pool = left counts j s.pool; flights = move s.flights k done })
  leaves-CountsInside false s k j there inv i n h = inv i n h
  leaves-CountsInside true s k j there inv i n h =
      let (m, old, v) =
        modified (counters s.pool) j (λ n. add_u64 n (2 ^ 64 - 1)) i n
          (rw (left-counters true j s.pool) at h) in
      let e = inv i m old in
      let moved = inside-move i s.flights k (counted j) done there in ground (arith, e, moved, v)

  arrives-CountsInside :
      (counts : Bool) (s : State Cb)
      → CountsInside counts s
      → CountsInside counts (record s { flights = s.flights ++ arrived ∷ [] })
  arrives-CountsInside counts s inv i n h =
      let e = inv i n h in
      let one_more = inside-append i s.flights (arrived ∷ []) in ground (arith, e, one_more)

  pub Step-CountsInside :
      {env : Env Cb} {f : FloatOps} {counts : Bool} {s t : State Cb}
      → Step env f counts s t
      → CountsInside counts s
      → CountsInside counts t
  Step-CountsInside {counts = counts} {s = s} arrives inv = arrives-CountsInside counts s inv
  Step-CountsInside {env = env} {f = f} {counts = counts} {s = s} (chooses k i ip there found) inv =
      uncounted counts s (get_next_backend env f ip s.pool).0 k arrived (chosen i)
        (get_next_backend-counters env f ip s.pool) there (λ j. refl) (λ j. refl) inv
  Step-CountsInside {env = env} {f = f} {counts = counts} {s = s} (finds_none k ip there missed)
        inv =
      uncounted counts s (get_next_backend env f ip s.pool).0 k arrived done
        (get_next_backend-counters env f ip s.pool) there (λ j. refl) (λ j. refl) inv
  Step-CountsInside {counts = counts} {s = s} (skips k there) inv =
      uncounted counts s s.pool k arrived done refl there (λ j. refl) (λ j. refl) inv
  Step-CountsInside {counts = counts} {s = s} (enters k i there) inv =
      enters-CountsInside counts s k i there inv
  Step-CountsInside {counts = counts} {s = s} (gives_up k i there) inv =
      uncounted counts s s.pool k (chosen i) done refl there (λ j. refl) (λ j. refl) inv
  Step-CountsInside {counts = counts} {s = s} (leaves k i there) inv =
      leaves-CountsInside counts s k i there inv
  Step-CountsInside {counts = counts} {s = s} (trips i c) inv =
      λ j n h. inv j n (rw (tripped-counters counts i c s.pool) at h)
  Step-CountsInside {env = env} {counts = counts} {s = s} (checks dials) inv =
      λ j n h. inv j n (rw (run_health_checks-connections env dials s.pool) at h)

  idle_zero :
      (bs : List (Backend Cb)) (i n : ℕ)
      → All (λ b. b.connections ≡ 0) bs
      → get_elem? (map (λ b. b.connections) bs) i ≡ some n
      → n ≡ 0
  idle_zero [] i n idle h = cc
  idle_zero (b ∷ bs) zero n idle h = ground (arith, idle.0, h)
  idle_zero (b ∷ bs) (suc i) n idle h = idle_zero bs i n idle.1 h

  -- From a pool whose counters are all 0 and no request, in any interleaving of requests, breakers
  -- and health checks: the counter of each backend is the number of the requests that are counted
  -- there, modulo 2^64, where the pool's strategy counts, and 0 where it does not.
  pub counts_at_every_interleaving :
      (env : Env Cb) (f : FloatOps) (counts : Bool) (p : BackendPool Cb) {s : State Cb}
      → All (λ b. b.connections ≡ 0) p.backends
      → Steps env f counts (record { pool = p; flights = [] }) s
      → (i n : ℕ) → get_elem? (counters s.pool) i ≡ some n
      → n ≡ (if counts then inside i s.flights else 0) % 2 ^ 64
  counts_at_every_interleaving env f counts p idle here i n h =
      ground (arith, idle_zero p.backends i n idle h)
  counts_at_every_interleaving env f counts p idle (next steps step) i n h =
      Step-CountsInside step (counts_at_every_interleaving env f counts p idle steps) i n h
