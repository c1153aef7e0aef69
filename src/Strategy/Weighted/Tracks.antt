-- ===== src/Strategy/Weighted/Tracks.antt =====
-- The current weights of all backends after `k` calls, by how often each was picked.
use go_load_balancer.Prelude.{
  ℕ, zero, suc, ◌*◌, ◌^◌, ◌<◌, ◌≤◌, ◌≡◌, refl, ap, inl, inr, false, some, List, [], ◌∷◌, map, arith,
  modify, get_elem?, All, Bool-cases, sum,
}
use go_load_balancer.Prelude.Int.{ℤ, pos, pos_part, neg_part, eq_of_parts, parts_zero}
use mathlib.Core.Path.{ap₂}
use native.Mathlib.Decide.{dec_lt}
use mathlib.Core.Option.{some-injective}
use go_load_balancer.Extern.{Env}
use go_load_balancer.Backend.{Backend}
use go_load_balancer.Strategy.{skipped, raise_weight, raised, lower_weight}
use go_load_balancer.Strategy.Weighted.Loop.{effective, sum_effective}
use go_load_balancer.Strategy.Weighted.Single.{
  Tracks, room_after, effective_off, raise_weight-balance, raised-Tracks, lowered-Tracks,
}

module _ {Cb : Type 0} where
  -- The calls leave all but the current weights alone.
  unfoldable pub forget : Backend Cb → Backend Cb
  forget b = record b { current_weight = pos 0 }

module _ {Cb : Type 0} (env : Env Cb) where
  -- The same of each backend and its count.
  abbrev pub TracksAll : ℕ → ℕ → List (Backend Cb) → List ℕ → Type 0
  TracksAll k total [] [] = Unit {0}
  TracksAll k total [] (n ∷ ns) = ⊥
  TracksAll k total (b ∷ bs) [] = ⊥
  TracksAll k total (b ∷ bs) (n ∷ ns) = Tracks env k total b n × TracksAll k total bs ns

  pub TracksAll-count :
      (k total : ℕ) (bs : List (Backend Cb)) (ns : List ℕ) (j : ℕ) {b : Backend Cb}
      → TracksAll k total bs ns
      → get_elem? bs j ≡ some b
      → (n : ℕ) × (get_elem? ns j ≡ some n)
  TracksAll-count k total [] ns j t e = absurd (ground arith)
  TracksAll-count k total (b ∷ bs) [] j t e = absurd t
  TracksAll-count k total (b ∷ bs) (n ∷ ns) zero t e = (n, refl)
  TracksAll-count k total (b ∷ bs) (n ∷ ns) (suc j) t e = TracksAll-count k total bs ns j t.1 e

  -- So the weights are not below zero.
  pub TracksAll-weights :
      (k total : ℕ) (bs : List (Backend Cb)) (ns : List ℕ)
      → TracksAll k total bs ns
      → All (λ b. neg_part b.weight ≡ 0) bs
  TracksAll-weights k total [] ns t = tt
  TracksAll-weights k total (b ∷ bs) [] t = absurd t
  TracksAll-weights k total (b ∷ bs) (n ∷ ns) t =
      (t.0.signed_weight, TracksAll-weights k total bs ns t.1)

  pub raised-TracksAll :
      (k total : ℕ) (bs : List (Backend Cb)) (ns : List ℕ)
      → k < total
      → total * total < 2 ^ 63
      → TracksAll k total bs ns
      → TracksAll (suc k) total (map (raised env) bs) ns
  raised-TracksAll k total [] [] h r t = tt
  raised-TracksAll k total [] (n ∷ ns) h r t = t
  raised-TracksAll k total (b ∷ bs) [] h r t = t
  raised-TracksAll k total (b ∷ bs) (n ∷ ns) h r t =
      (raised-Tracks env k total b n t.0 h r, raised-TracksAll k total bs ns h r t.1)

  pub lowered-TracksAll :
      (k total : ℕ) (bs : List (Backend Cb)) (ns : List ℕ) (j : ℕ) {c : Backend Cb}
      → k < total
      → total * total < 2 ^ 63
      → TracksAll (suc k) total bs ns
      → get_elem? bs j ≡ some c
      → 0 < pos_part c.current_weight
      → TracksAll (suc k) total (modify bs j (lower_weight (pos total))) (modify ns j suc)
  lowered-TracksAll k total [] ns j h r t e a = cc
  lowered-TracksAll k total (b ∷ bs) [] j h r t e a = absurd t
  lowered-TracksAll k total (b ∷ bs) (n ∷ ns) zero {c} h r t e a =
      let at : b ≡ c = some-injective b c e in
      let (fits, small) = room_after env k total b t.0.part h r in
      (lowered-Tracks env k total b n t.0 fits small (rw at a), t.1)
  lowered-TracksAll k total (b ∷ bs) (n ∷ ns) (suc j) h r t e a =
      (t.0, lowered-TracksAll k total bs ns j h r t.1 e a)

  -- If no used backend is raised above a weight that is not positive, too little was paid out.
  abbrev pub NoneAbove : List (Backend Cb) → Type 0
  NoneAbove bs = All (λ c. skipped env c ≡ false → pos_part (raise_weight c).current_weight ≡ 0) bs

  paid-le_one :
      (k total : ℕ) (b : Backend Cb) (n : ℕ)
      → k < total
      → total * total < 2 ^ 63
      → Tracks env k total b n
      → (skipped env b ≡ false → pos_part (raise_weight b).current_weight ≡ 0)
      → suc k * effective env b ≤ total * n
  paid-le_one k total b n h r t a = elim (Bool-cases (skipped env b)) [
    | inl off ↦ rw (effective_off env b off) (omega arith)
    | inr on ↦ omega (arith, raise_weight-balance env k total b n t h r on, a on)
  ]

  pub paid-le :
      (k total : ℕ) (bs : List (Backend Cb)) (ns : List ℕ)
      → k < total
      → total * total < 2 ^ 63
      → TracksAll k total bs ns
      → NoneAbove bs
      → suc k * sum_effective env bs ≤ total * sum ns
  paid-le k total [] [] h r t a = omega arith
  paid-le k total [] (n ∷ ns) h r t a = absurd t
  paid-le k total (b ∷ bs) [] h r t a = absurd t
  paid-le k total (b ∷ bs) (n ∷ ns) h r t a =
      omega (arith, paid-le_one k total b n h r t.0 a.0, paid-le k total bs ns h r t.1 a.1)

  pub forget-raised : (bs : List (Backend Cb)) → map forget (map (raised env) bs) ≡ map forget bs
  unfolding forget raised raise_weight
  forget-raised [] = refl
  forget-raised (b ∷ bs) = ground (arith, forget-raised bs)

  pub forget-lowered :
      (w : ℤ) (bs : List (Backend Cb)) (j : ℕ)
      → map forget (modify bs j (lower_weight w)) ≡ map forget bs
  unfolding forget lower_weight
  forget-lowered w [] j = refl
  forget-lowered w (b ∷ bs) zero = refl
  forget-lowered w (b ∷ bs) (suc j) =
      ap (λ (l : List (Backend Cb)). forget b ∷ l) (forget-lowered w bs j)

  pub sum_effective-forget :
      (bs : List (Backend Cb)) → sum_effective env (map forget bs) ≡ sum_effective env bs
  unfolding forget effective skipped
  sum_effective-forget [] = refl
  sum_effective-forget (b ∷ bs) = omega (arith, sum_effective-forget bs)

  -- What was paid out in full is even: then every count is the weight, and the current weights are 0.
  count-le :
      (total : ℕ) (b : Backend Cb) (n : ℕ)
      → 0 < total
      → Tracks env total total b n
      → n ≤ effective env b
  count-le total b n p t = elim (dec_lt (effective env b) n) [
    | yes over ↦ absurd (grind (arith, t.bound))
    | no within ↦ omega arith
  ]

  forget_self :
      (total : ℕ) (b : Backend Cb) (n : ℕ)
      → Tracks env total total b n
      → n ≡ effective env b
      → forget b ≡ b
  unfolding forget
  forget_self total b n t e =
      let zero_weight : b.current_weight ≡ pos 0 =
        eq_of_parts b.current_weight (pos 0)
          (omega (arith, t.balance, ap (λ (m : ℕ). total * m) e, parts_zero b.current_weight)) in
      ground arith

  counts-le :
      (total : ℕ) (bs : List (Backend Cb)) (ns : List ℕ)
      → 0 < total
      → TracksAll total total bs ns
      → sum ns ≤ sum_effective env bs
  counts-le total [] [] p t = omega arith
  counts-le total [] (n ∷ ns) p t = absurd t
  counts-le total (b ∷ bs) [] p t = absurd t
  counts-le total (b ∷ bs) (n ∷ ns) p t =
      omega (arith, count-le total b n p t.0, counts-le total bs ns p t.1)

  pub cycle_even :
      (total : ℕ) (bs : List (Backend Cb)) (ns : List ℕ)
      → 0 < total
      → TracksAll total total bs ns
      → sum ns ≡ sum_effective env bs
      → (ns ≡ map (effective env) bs) × (map forget bs ≡ bs)
  cycle_even total [] [] p t e = (refl, refl)
  cycle_even total [] (n ∷ ns) p t e = absurd t
  cycle_even total (b ∷ bs) [] p t e = absurd t
  cycle_even total (b ∷ bs) (n ∷ ns) p t e =
      let le = count-le total b n p t.0 in
      let les = counts-le total bs ns p t.1 in
      let one : n ≡ effective env b = omega arith in
      let (counts, same) = cycle_even total bs ns p t.1 (omega arith) in
      let kept = forget_self total b n t.0 one in
      (ap₂ (λ (m : ℕ) l. m ∷ l) one counts, ap₂ (λ (c : Backend Cb) l. c ∷ l) kept same)

  -- Before the first call no weight was gathered and nothing paid.
  pub IsFresh-TracksAll :
      (total : ℕ) (bs : List (Backend Cb))
      → All (λ b. (neg_part b.weight ≡ 0) × (b.current_weight ≡ pos 0)) bs
      → sum_effective env bs ≤ total
      → 0 < total
      → TracksAll 0 total bs (map (λ _. 0) bs)
  IsFresh-TracksAll total [] fresh le p = tt
  IsFresh-TracksAll total (b ∷ bs) fresh le p = (
    record {
      signed_weight = fresh.0.0;
      part = omega arith;
      balance = rw (fresh.0.1) (omega arith);
      bound = omega arith;
    },
    IsFresh-TracksAll total bs fresh.1 (omega arith) p,
  )

  pub forget-IsFresh :
      (bs : List (Backend Cb))
      → All (λ b. (neg_part b.weight ≡ 0) × (b.current_weight ≡ pos 0)) bs
      → map forget bs ≡ bs
  unfolding forget
  forget-IsFresh [] fresh = refl
  forget-IsFresh (b ∷ bs) fresh = ground (arith, fresh.0.1, forget-IsFresh bs fresh.1)
