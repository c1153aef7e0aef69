-- ===== src/Strategy/Weighted/Single.antt =====
-- The current weight of one backend after `k` calls, by how often it was picked: the weight that it
-- gathered less the total that it paid. `total` is the sum of the weights that count.
use go_load_balancer.Prelude.{
  ℕ, suc, ◌+◌, ◌*◌, ◌^◌, ◌<◌, ◌≤◌, ◌≡◌, refl, ap, inl, inr, true, false, arith, Bool-cases,
}
use go_load_balancer.Prelude.Int.{
  ℤ, pos, pos_part, neg_part, ◌+ℤ◌, +ℤ_parts, -ℤ_parts, add64-eq, sub64-eq, parts_zero,
}
use go_load_balancer.Extern.{Env}
use go_load_balancer.Backend.{Backend}
use go_load_balancer.Strategy.{skipped, raise_weight, raised, lower_weight}
use go_load_balancer.Strategy.Weighted.Loop.{effective}

module _ {Cb : Type 0} (env : Env Cb) where
  pub record Tracks (k total : ℕ) (b : Backend Cb) (n : ℕ) : Type 0 where
    pub signed_weight : neg_part b.weight ≡ 0
    pub part : effective env b ≤ total
    pub balance :
        pos_part b.current_weight + total * n ≡ neg_part b.current_weight + k * effective env b
    pub bound : total * n < k * effective env b + total

  pub room_after :
      (k total : ℕ) (b : Backend Cb)
      → effective env b ≤ total
      → k < total
      → total * total < 2 ^ 63
      → (suc k * effective env b < 2 ^ 63) × (total < 2 ^ 63)
  room_after k total b le h r = (grind arith, grind arith)

  -- No weight leaves the int64 range while the square of the total fits.
  room :
      (k total : ℕ) (b : Backend Cb) (n : ℕ)
      → Tracks k total b n
      → k < total
      → total * total < 2 ^ 63
      → (suc k * effective env b < 2 ^ 63) × (total < 2 ^ 63)
  room k total b n t h r = room_after k total b t.part h r

  raised_off : (b : Backend Cb) → skipped env b ≡ true → raised env b ≡ b
  unfolding raised
  raised_off b off = rw (off, raised)

  pub raised_on : (b : Backend Cb) → skipped env b ≡ false → raised env b ≡ raise_weight b
  unfolding raised
  raised_on b on = rw (on, raised)

  pub effective_off : (b : Backend Cb) → skipped env b ≡ true → effective env b ≡ 0
  unfolding effective
  effective_off b off = ground arith

  effective_on : (b : Backend Cb) → skipped env b ≡ false → effective env b ≡ pos_part b.weight
  unfolding effective
  effective_on b on = ground arith

  effective-raised : (b : Backend Cb) → effective env (raised env b) ≡ effective env b
  unfolding effective raised skipped raise_weight
  effective-raised b = ground arith

  weight-raised : (b : Backend Cb) → (raised env b).weight ≡ b.weight
  unfolding raised raise_weight
  weight-raised b = ground arith

  -- The weight that a used backend is raised to.
  raise_weight-sum :
      (k total : ℕ) (b : Backend Cb) (n : ℕ)
      → Tracks k total b n
      → k < total
      → total * total < 2 ^ 63
      → skipped env b ≡ false
      → (raise_weight b).current_weight ≡ b.current_weight +ℤ b.weight
  unfolding raise_weight
  raise_weight-sum k total b n t h r on =
      let e = effective_on b on in
      let (fits, total_fits) = room k total b n t h r in
      add64-eq b.current_weight b.weight
        (omega (arith, t.balance, t.bound, t.signed_weight, parts_zero b.current_weight))
        (omega (arith, t.balance, t.bound, t.signed_weight, parts_zero b.current_weight))

  pub raise_weight-balance :
      (k total : ℕ) (b : Backend Cb) (n : ℕ)
      → Tracks k total b n
      → k < total
      → total * total < 2 ^ 63
      → skipped env b ≡ false
      → let w = (raise_weight b).current_weight in
        pos_part w + total * n ≡ neg_part w + suc k * effective env b
  raise_weight-balance k total b n t h r on = rw (raise_weight-sum k total b n t h r on) (
      omega
        (arith, t.balance, t.signed_weight, effective_on b on, +ℤ_parts b.current_weight b.weight))

  raised-balance :
      (k total : ℕ) (b : Backend Cb) (n : ℕ)
      → Tracks k total b n
      → k < total
      → total * total < 2 ^ 63
      → let w = (raised env b).current_weight in
        pos_part w + total * n ≡ neg_part w + suc k * effective env b
  raised-balance k total b n t h r = elim (Bool-cases (skipped env b)) [
    | inl off ↦
        rw (raised_off b off) (
          omega
            (arith, t.balance, effective_off b off, ap (λ (e : ℕ). k * e) (effective_off b off)))
    | inr on ↦ rw (raised_on b on) (raise_weight-balance k total b n t h r on)
  ]

  -- A call on which the backend is not picked.
  pub raised-Tracks :
      (k total : ℕ) (b : Backend Cb) (n : ℕ)
      → Tracks k total b n
      → k < total
      → total * total < 2 ^ 63
      → Tracks (suc k) total (raised env b) n
  raised-Tracks k total b n t h r = record {
    signed_weight = rw (weight-raised b) t.signed_weight;
    part = rw (effective-raised b) t.part;
    balance = rw (effective-raised b) (raised-balance k total b n t h r);
    bound = rw (effective-raised b) (omega (arith, t.bound));
  }

  effective-lower : (w : ℤ) (b : Backend Cb) → effective env (lower_weight w b) ≡ effective env b
  unfolding effective skipped lower_weight
  effective-lower w b = refl

  -- A call on which it is picked, with a raised weight above zero.
  pub lowered-Tracks :
      (k total : ℕ) (b : Backend Cb) (n : ℕ)
      → Tracks (suc k) total b n
      → suc k * effective env b < 2 ^ 63
      → total < 2 ^ 63
      → 0 < pos_part b.current_weight
      → Tracks (suc k) total (lower_weight (pos total) b) (suc n)
  unfolding lower_weight
  lowered-Tracks k total b n t fits small above_zero =
      let e =
        sub64-eq b.current_weight (pos total)
          (omega (arith, t.balance, parts_zero b.current_weight))
          (omega (arith, parts_zero b.current_weight)) in
      record {
        signed_weight = t.signed_weight;
        part = rw (effective-lower (pos total) b) t.part;
        balance =
            rw (effective-lower (pos total) b, e)
              (omega (arith, t.balance, -ℤ_parts b.current_weight (pos total)));
        bound =
            rw (effective-lower (pos total) b)
              (omega (arith, t.balance, parts_zero b.current_weight));
      }
