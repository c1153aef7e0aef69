-- ===== src/Strategy/RoundRobin/Wrap.antt =====
-- GetNextBackendByRoundRobin of internal/lb/strategy.go where its counter wraps inside the loop.
use go_load_balancer.Prelude.{
  ℕ, zero, suc, ◌+◌, ◌-◌, ◌*◌, ◌%◌, ◌/◌, ◌^◌, ◌<◌, ◌≤◌, ◌≡◌, ◌≢◌, refl, ap, ◌∙◌, false, none, some,
  List, arith, get_elem?, length, lt-get_elem?,
}
use native.Mathlib.Nat.{mod-lt, mod-eq_of_lt, mul-add-mod_self_right, div-add-mod'}
use native.Mathlib.Decide.{dec_lt}
use go_load_balancer.Extern.{Env}
use go_load_balancer.Backend.{Backend, BackendPool, add_u64}
use go_load_balancer.Strategy.{available, available_at, round_robin_loop, get_next_by_round_robin}
use go_load_balancer.Strategy.RoundRobin.{available_at_lem}

-- The last value of the counter does not meet the last of `n + 1` backends.
last_residue : (m n : ℕ) → suc m % suc n ≢ 0 → m % suc n < n
last_residue m n odd =
    let split = div-add-mod' m (suc n) in
    let small = mod-lt m {m = suc n} (omega arith) in
    elim (dec_lt (m % suc n) n) [
      | yes low ↦ low
      | no high ↦
          let next : suc m ≡ (m / suc n + 1) * suc n + 0 = grind (arith, split, small, high) in
          absurd (
            odd (
              ap (λ k. k % suc n) next
              ∙ mul-add-mod_self_right (m / suc n + 1) (suc n) 0
              ∙ mod-eq_of_lt (omega arith)))
    ]

module _ {Cb : Type 0} (env : Env Cb) (bs : List (Backend Cb)) (n : ℕ) (size : length bs ≡ suc n)
    (down : (i : ℕ) (b : Backend Cb)
      → i < n
      → get_elem? bs i ≡ some b
      → available env b ≡ false) where
  down_at : (i : ℕ) → i < n → available_at env bs i ≡ false
  down_at i h =
      let (b, there) = lt-get_elem? bs i (omega (arith, h, size)) in
      available_at_lem env bs i there ∙ down i b h there

  -- A value of the counter that does not meet the last backend.
  passed :
      (rounds current : ℕ)
      → add_u64 current 1 % suc n < n
      → (round_robin_loop env rounds bs (add_u64 current 1)).1 ≡ none
      → (round_robin_loop env (suc rounds) bs current).1 ≡ none
  unfolding round_robin_loop
  passed rounds current low rest = rw (size, down_at (add_u64 current 1 % suc n) low) rest

  none_below :
      (rounds current : ℕ)
      → current + rounds < n
      → n < 2 ^ 64
      → (round_robin_loop env rounds bs current).1 ≡ none
  unfolding round_robin_loop
  none_below zero current h small = refl
  none_below (suc rounds) current h small =
      let next : add_u64 current 1 ≡ suc current = omega (arith, h, small) in
      let index : suc current % suc n ≡ suc current = mod-eq_of_lt (omega (arith, h)) in
      passed rounds current (rw (next, index) (omega (arith, h)))
        (rw next (none_below rounds (suc current) (omega (arith, h)) small))

  after_wrap :
      (rounds : ℕ)
      → rounds ≤ n
      → n < 2 ^ 64
      → (round_robin_loop env rounds bs (2 ^ 64 - 1)).1 ≡ none
  unfolding round_robin_loop
  after_wrap zero h small = refl
  after_wrap (suc rounds) h small =
      passed rounds (2 ^ 64 - 1) (omega (arith, h)) (none_below rounds 0 (omega (arith, h)) small)

module _ {Cb : Type 0} (env : Env Cb) where
  -- A pool whose size does not divide 2^64, and of which no backend but the last is available, and a
  -- counter at 2^64 - 2: though the loop has as many rounds as there are backends, none of the values
  -- of the counter, 2^64 - 1 and then those from 0 on, meets the last backend, and the call answers
  -- none.
  pub round_robin_misses_at_wrap :
      (p : BackendPool Cb) (n : ℕ)
      → length p.backends ≡ suc n
      → suc n < 2 ^ 64
      → 2 ^ 64 % suc n ≢ 0
      → p.current ≡ 2 ^ 64 - 2
      → ((i : ℕ) (b : Backend Cb)
          → i < n
          → get_elem? p.backends i ≡ some b
          → available env b ≡ false)
      → (get_next_by_round_robin env p).1 ≡ none
  unfolding get_next_by_round_robin
  round_robin_misses_at_wrap p n size small odd at_end down =
      let first : add_u64 (2 ^ 64 - 2) 1 ≡ 2 ^ 64 - 1 = refl in
      rw (size, at_end)
        (passed env p.backends n size down n (2 ^ 64 - 2) (last_residue (2 ^ 64 - 1) n odd)
          (after_wrap env p.backends n size down n (omega arith) (omega (arith, small))))
