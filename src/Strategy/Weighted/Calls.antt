-- ===== src/Strategy/Weighted/Calls.antt =====
-- One call of the weighted round robin after others, while no backend's availability changes.
use go_load_balancer.Prelude.{
  ℕ, suc, ◌*◌, ◌^◌, ◌<◌, ◌≡◌, ap, sym, ◌∙◌, inl, inr, false, none, some, List, [], ◌∷◌, map, arith,
  modify, get_elem?, length, sum, sum-modify-suc, get_elem?-lt, get_elem?-map,
}
use native.Mathlib.Decide.{dec_lt}
use go_load_balancer.Prelude.Int.{ℤ, pos, pos_part, parts_zero}
use go_load_balancer.Extern.{Env}
use go_load_balancer.Backend.{Backend, BackendPool}
use go_load_balancer.Strategy.{
  skipped, raise_weight, raised, lower_weight, get_next_by_weighted_round_robin,
}
use go_load_balancer.Strategy.Argmin.{IsLeast}
use go_load_balancer.Strategy.Weighted.Loop.{
  sum_effective, above, raised_key, pick, weighted_result, pick-cases,
}
use go_load_balancer.Strategy.Weighted.Single.{raised_on}
use go_load_balancer.Strategy.Weighted.Tracks.{
  TracksAll, raised-TracksAll, lowered-TracksAll, NoneAbove, paid-le, TracksAll-count,
  TracksAll-weights, forget, forget-raised, forget-lowered, sum_effective-forget,
}

module _ {Cb : Type 0} (env : Env Cb) where
  -- The invariant of the calls: `k` of them were made, and position `i` was picked `ns[i]` times.
  pub record After (k total : ℕ) (p : BackendPool Cb) (ns : List ℕ) : Type 0 where
    pub tracks : TracksAll env k total p.backends ns
    pub calls : sum ns ≡ k
    pub weights : sum_effective env p.backends ≡ total

  NoneAbove-none :
      (bs : List (Backend Cb)) → IsLeast (skipped env) raised_key above none bs → NoneAbove env bs
  NoneAbove-none [] least = tt
  NoneAbove-none (b ∷ bs) least = (λ on. absurd (cc (least.0 on)), NoneAbove-none bs least.1)

  NoneAbove-some :
      (w : ℤ) (bs : List (Backend Cb))
      → pos_part w ≡ 0
      → IsLeast (skipped env) raised_key above (some w) bs
      → NoneAbove env bs
  NoneAbove-some w [] e least = tt
  NoneAbove-some w (b ∷ bs) e least = (
    λ on. ground (arith, least.0 on, parts_zero (raise_weight b).current_weight),
    NoneAbove-some w bs e least.1,
  )

  not-NoneAbove :
      (k total : ℕ) (p : BackendPool Cb) (ns : List ℕ)
      → After k total p ns
      → k < total
      → total * total < 2 ^ 63
      → ¬ NoneAbove env p.backends
  not-NoneAbove k total p ns a h r none_above = omega (
    arith,
    paid-le env k total p.backends ns h r a.tracks none_above,
    ap (λ (n : ℕ). total * n) a.calls,
    ap (λ (n : ℕ). suc k * n) a.weights,
  )

  -- A call finds a backend whose raised weight is above zero.
  pick_above_zero :
      (k total : ℕ) (p : BackendPool Cb) (ns : List ℕ)
      → After k total p ns
      → k < total
      → total * total < 2 ^ 63
      → (j : ℕ) × (b : Backend Cb) × (pick env p.backends ≡ some j)
        × (get_elem? p.backends j ≡ some b)
        × (skipped env b ≡ false)
        × (0 < pos_part (raise_weight b).current_weight)
  pick_above_zero k total p ns a h r = elim (pick-cases env p.backends) [
    | inl (e, least) ↦ absurd (not-NoneAbove k total p ns a h r (NoneAbove-none p.backends least))
    | inr (j, b, e, found, used, _, least) ↦ (
      j,
      b,
      ground arith,
      found,
      used,
      elim (dec_lt 0 (pos_part (raise_weight b).current_weight)) [
        | yes positive ↦ positive
        | no zero_part ↦ absurd (
            not-NoneAbove k total p ns a h r
              (NoneAbove-some (raise_weight b).current_weight p.backends (omega arith) least))
      ],
    )
  ]

  called :
      (k total : ℕ) (p : BackendPool Cb) (ns : List ℕ) (j : ℕ)
      → After k total p ns
      → k < total
      → total * total < 2 ^ 63
      → pick env p.backends ≡ some j
      → get_next_by_weighted_round_robin env p ≡ (
        record p { backends = modify (map (raised env) p.backends) j (lower_weight (pos total)) },
        some j,
      )
  called k total p ns j a h r e =
      let small : total < 2 ^ 63 = grind arith in
      weighted_result env p (TracksAll-weights env k total p.backends ns a.tracks)
        (omega (arith, a.weights))
      ∙ rw (e, a.weights)

  -- What a call does to the invariant.
  pub call-After :
      (k total : ℕ) (p : BackendPool Cb) (ns : List ℕ)
      → After k total p ns
      → k < total
      → total * total < 2 ^ 63
      → (j : ℕ) × (bs : List (Backend Cb)) × (get_next_by_weighted_round_robin env p
          ≡ (record p { backends = bs }, some j))
        × After (suc k) total (record p { backends = bs }) (modify ns j suc)
        × (map forget bs ≡ map forget p.backends)
        × (j < length ns)
  call-After k total p ns a h r =
      let (j, b, e, found, used, positive) = pick_above_zero k total p ns a h r in
      let bs = map (raised env) p.backends in
      let bs' = modify bs j (lower_weight (pos total)) in
      let same : map forget bs' ≡ map forget p.backends =
        forget-lowered env (pos total) bs j ∙ forget-raised env p.backends in
      let (n, counted) = TracksAll-count env k total p.backends ns j a.tracks found in
      (
        j,
        bs',
        called k total p ns j a h r e,
        record {
          tracks =
              lowered-TracksAll env k total bs ns j h r
                (raised-TracksAll env k total p.backends ns h r a.tracks)
                (get_elem?-map (raised env) p.backends j found)
                (rw (raised_on env b used) positive);
          calls = sum-modify-suc ns j counted ∙ ap suc a.calls;
          weights =
              sym (sum_effective-forget env bs')
              ∙ ap (sum_effective env) same
              ∙ sum_effective-forget env p.backends
              ∙ a.weights;
        },
        same,
        get_elem?-lt ns j counted,
      )
