-- ===== src/Strategy/RoundRobin.antt =====
-- GetNextBackendByRoundRobin of internal/lb/strategy.go: which backend it finds.
pub mod Wrap
use go_load_balancer.Prelude.{
  ℕ, zero, suc, ◌+◌, ◌-◌, ◌*◌, ◌%◌, ◌/◌, ◌^◌, ◌<◌, ◌≤◌, ◌≡◌, refl, ap, ◌∙◌, ◌⊎◌, inl, inr, Bool,
  true, false, Option, none, some, List, [], ◌∷◌, arith, Bool-cases, Option-cases, get_elem?,
  length, get_elem?-lt, lt-get_elem?,
}
use native.Mathlib.Nat.{mod-lt, mod-eq_of_lt, mul-add-mod_self_right, div-add-mod'}
use native.Mathlib.Decide.{dec_lt}
use go_load_balancer.Extern.{Env}
use go_load_balancer.Backend.{Backend, BackendPool, add_u64}
use go_load_balancer.Strategy.{available, available_at, round_robin_loop, get_next_by_round_robin}

module _ {Cb : Type 0} (env : Env Cb) where
  -- What the loop sees when the counter stands at `m`.
  abbrev Sees : List (Backend Cb) → ℕ → Bool → Type 0
  Sees bs m up = available_at env bs (m % length bs) ≡ up

  -- The loop stops at the first value of the counter that meets an available backend.
  abbrev FirstOf : ℕ → List (Backend Cb) → ℕ → ℕ × Option ℕ → Type 0
  FirstOf rounds bs current r =
      ((r ≡ (current + rounds, none))
        × ((m : ℕ) → current < m → m ≤ current + rounds → Sees bs m false))
      ⊎ ((m : ℕ) × (current < m)
          × (m ≤ current + rounds)
          × (r ≡ (m, some (m % length bs)))
          × Sees bs m true
          × ((j : ℕ) → current < j → j < m → Sees bs j false))

  down_from_next :
      (bs : List (Backend Cb)) (current j : ℕ)
      → Sees bs (suc current) false
      → (suc current < j → Sees bs j false)
      → current < j
      → Sees bs j false
  down_from_next bs current j down more a = elim (dec_lt (suc current) j) [
    | yes above ↦ more above
    | no at ↦ let e : j ≡ suc current = omega arith in rw e down
  ]

  -- The first value does not meet one.
  later :
      (rounds : ℕ) (bs : List (Backend Cb)) (current : ℕ) (r : ℕ × Option ℕ)
      → Sees bs (suc current) false
      → FirstOf rounds bs (suc current) r
      → FirstOf (suc rounds) bs current r
  later rounds bs current r down (inl (e, all)) = inl (
    ground arith,
    λ m above below. down_from_next bs current m down (λ a. all m a (omega arith)) above,
  )
  later rounds bs current r down (inr (m, above, below, e, up, before)) = inr (
    m,
    omega arith,
    omega arith,
    e,
    up,
    λ j a b. down_from_next bs current j down (λ c. before j c b) a,
  )

  round_robin_loop_lem :
      (rounds : ℕ) (bs : List (Backend Cb)) (current : ℕ)
      → current + rounds < 2 ^ 64
      → FirstOf rounds bs current (round_robin_loop env rounds bs current)
  unfolding round_robin_loop
  round_robin_loop_lem zero bs current h = inl (ground arith, λ m a b. absurd (omega arith))
  round_robin_loop_lem (suc rounds) bs current h =
      let next : add_u64 current 1 ≡ suc current = omega arith in
      elim (Bool-cases (available_at env bs (suc current % length bs))) [
        | inl up ↦
            rw (next, up)
              (inr (suc current, omega arith, omega arith, refl, up, λ j a b. absurd (omega arith)))
        | inr down ↦
            rw (next, down)
              (later rounds bs current _ down
                (round_robin_loop_lem rounds bs (suc current) (omega arith)))
      ]

  -- Among any `n` values of the counter in a row one leaves the remainder `i`.
  residue : (n current i : ℕ) → i < n → (m : ℕ) × (current < m) × (m ≤ current + n) × (m % n ≡ i)
  residue n current i h = elim (dec_lt (suc current % n) (suc i)) [
    | yes p ↦ (
      suc current / n * n + i,
      grind (arith, div-add-mod' (suc current) n, mod-lt (suc current) {m = n}),
      grind (arith, div-add-mod' (suc current) n, mod-lt (suc current) {m = n}),
      mul-add-mod_self_right (suc current / n) n i ∙ mod-eq_of_lt h,
    )
    | no p ↦ (
      (suc current / n + 1) * n + i,
      grind (arith, div-add-mod' (suc current) n, mod-lt (suc current) {m = n}),
      grind (arith, div-add-mod' (suc current) n, mod-lt (suc current) {m = n}),
      mul-add-mod_self_right (suc current / n + 1) n i ∙ mod-eq_of_lt h,
    )
  ]

  available_at_lem :
      (bs : List (Backend Cb)) (i : ℕ) {b : Backend Cb}
      → get_elem? bs i ≡ some b
      → available_at env bs i ≡ available env b
  unfolding available_at
  available_at_lem bs i e = rw (e, available_at)

  available_at-some :
      (bs : List (Backend Cb)) (i : ℕ)
      → available_at env bs i ≡ true
      → (b : Backend Cb) × (get_elem? bs i ≡ some b) × (available env b ≡ true)
  unfolding available_at
  available_at-some bs i h = elim (Option-cases (get_elem? bs i)) [
    | inl e ↦ absurd (ground arith)
    | inr (b, e) ↦ (b, e, ground arith)
  ]

  -- The answer of the round robin from `current`: the counter moves to `m`, by at most the number of
  -- backends, the backend at `m` modulo that number is available, and the ones passed over are not.
  abbrev pub FirstInTurn : BackendPool Cb → BackendPool Cb × Option ℕ → Type 0
  FirstInTurn p (p', r) =
      let n = length p.backends in
      (m : ℕ) × (b : Backend Cb) × (p.current < m)
      × (m ≤ p.current + n)
      × (p' ≡ record p { current = m })
      × (r ≡ some (m % n))
      × (get_elem? p.backends (m % n) ≡ some b)
      × (available env b ≡ true)
      × ((j : ℕ) (c : Backend Cb)
          → p.current < j
          → j < m
          → get_elem? p.backends (j % n) ≡ some c
          → available env c ≡ false)

  -- If some backend is available and the counter does not wrap during the call, the round robin
  -- answers the first available backend in cyclic order after the counter.
  pub round_robin_finds :
      (p : BackendPool Cb) (i : ℕ) (b : Backend Cb)
      → get_elem? p.backends i ≡ some b
      → available env b ≡ true
      → p.current + length p.backends < 2 ^ 64
      → FirstInTurn p (get_next_by_round_robin env p)
  unfolding get_next_by_round_robin
  round_robin_finds p i b found up room =
      let bs = p.backends in
      elim (round_robin_loop_lem (length bs) bs p.current room) [
        | inl (e, none_up) ↦
            let (m, above, below, hit) =
              residue (length bs) p.current i (get_elem?-lt bs i found) in
            absurd (
              cc (none_up m above below, ap (available_at env bs) hit, available_at_lem bs i found))
        | inr (m, above, below, e, up_m, before) ↦
            let (c, at_m, up_c) = available_at-some bs (m % length bs) up_m in
            (
              m,
              c,
              above,
              below,
              ground arith,
              ground arith,
              at_m,
              up_c,
              λ j d a l at_j. cc (before j a l, available_at_lem bs (j % length bs) at_j),
            )
      ]

  round_robin_loop-available :
      (rounds : ℕ) (bs : List (Backend Cb)) (current i : ℕ)
      → (round_robin_loop env rounds bs current).1 ≡ some i
      → available_at env bs i ≡ true
  unfolding round_robin_loop
  round_robin_loop-available zero bs current i e = absurd (cc e)
  round_robin_loop-available (suc rounds) bs current i e =
      let next = add_u64 current 1 in
      elim (Bool-cases (available_at env bs (next % length bs))) [
        | inl up ↦ ground arith
        | inr down ↦ round_robin_loop-available rounds bs next i (rw down at e)
      ]

  -- Whatever the round robin answers is available.
  pub round_robin_sound :
      (p : BackendPool Cb) (i : ℕ)
      → (get_next_by_round_robin env p).1 ≡ some i
      → (b : Backend Cb) × (get_elem? p.backends i ≡ some b) × (available env b ≡ true)
  unfolding get_next_by_round_robin
  round_robin_sound p i e =
      available_at-some p.backends i
        (round_robin_loop-available (length p.backends) p.backends p.current i e)

  pub round_robin-backends :
      (p : BackendPool Cb)
      → ((get_next_by_round_robin env p).0.backends ≡ p.backends)
        × ((get_next_by_round_robin env p).0.strategy ≡ p.strategy)
  unfolding get_next_by_round_robin
  round_robin-backends p = (refl, refl)

  round_robin_loop-up :
      (rounds : ℕ) (bs : List (Backend Cb)) (current : ℕ)
      → 0 < rounds
      → current + 1 < 2 ^ 64
      → available_at env bs ((current + 1) % length bs) ≡ true
      → round_robin_loop env rounds bs current ≡ (current + 1, some ((current + 1) % length bs))
  unfolding round_robin_loop
  round_robin_loop-up zero bs current h room up = absurd (omega arith)
  round_robin_loop-up (suc rounds) bs current h room up =
      let next : add_u64 current 1 ≡ current + 1 = omega arith in rw (next, up)

  -- If every backend of a non-empty pool is available and the counter does not wrap, a call of the
  -- round robin moves the counter by one and answers the backend at its remainder.
  pub round_robin_turn :
      (p : BackendPool Cb)
      → 0 < length p.backends
      → p.current + 1 < 2 ^ 64
      → ((i : ℕ) (b : Backend Cb) → get_elem? p.backends i ≡ some b → available env b ≡ true)
      → get_next_by_round_robin env p
        ≡ (record p { current = p.current + 1 }, some ((p.current + 1) % length p.backends))
  unfolding get_next_by_round_robin
  round_robin_turn p pos_len room up =
      let bs = p.backends in
      let index = (p.current + 1) % length bs in
      let (b, e) = lt-get_elem? bs index (mod-lt (p.current + 1) pos_len) in
      ground (
        arith,
        round_robin_loop-up (length bs) bs p.current,
        available_at_lem bs index e,
        up index b e,
      )
