-- ===== src/Strategy/Weighted/Cycle.antt =====
-- A cycle of the weighted round robin: as many calls as the sum of the weights, while no backend's
-- availability changes.
use go_load_balancer.Prelude.{
  ℕ, zero, suc, ◌+◌, ◌*◌, ◌^◌, ◌<◌, ◌≤◌, ◌≡◌, refl, ap, sym, ◌∙◌, true, false, Option, none, some,
  List, [], ◌∷◌, map, arith, modify, get_elem?, sum-zeros, All, ◌==◌, if◌then◌else◌,
  get_elem?-modify_self, get_elem?-modify_ne, get_elem?-map,
}
use native.Mathlib.Nat.{add-zero, zero-add}
use mathlib.Core.Option.{some-injective}
use native.Mathlib.Decide.{ℕ_discrete}
use go_load_balancer.Prelude.Int.{pos, pos_part, neg_part}
use go_load_balancer.Extern.{Env}
use go_load_balancer.Backend.{Backend, BackendPool}
use go_load_balancer.Strategy.{available, get_next_by_weighted_round_robin}
use go_load_balancer.Strategy.Weighted.Loop.{effective, effective_lem, sum_effective}
use go_load_balancer.Strategy.Weighted.Tracks.{
  forget-IsFresh, IsFresh-TracksAll, forget, cycle_even,
}
use go_load_balancer.Strategy.Weighted.Calls.{After, call-After}

-- How often a position was picked.
abbrev pub times : ℕ → List (Option ℕ) → ℕ
times i [] = 0
times i (none ∷ rs) = times i rs
times i (some j ∷ rs) = if j == i then suc (times i rs) else times i rs

-- A pick that is counted before the others.
times-modify-suc :
    (j i n : ℕ) (ns ns' : List ℕ) (rs : List (Option ℕ))
    → get_elem? ns i ≡ some n
    → ((m : ℕ) → get_elem? (modify ns j suc) i ≡ some m → get_elem? ns' i ≡ some (m + times i rs))
    → get_elem? ns' i ≡ some (n + times i (some j ∷ rs))
times-modify-suc j i n ns ns' rs e count = elim (ℕ_discrete j i) [
  | yes hit ↦
      let hit' : (j == i) ≡ true = ground arith in
      rw hit' (count (suc n) (rw hit (get_elem?-modify_self ns i suc e)) ∙ ap some (omega arith))
  | no miss ↦
      let miss' : (j == i) ≡ false = ground arith in
      rw miss' (count n (get_elem?-modify_ne ns j i suc miss ∙ e))
]

module _ {Cb : Type 0} (env : Env Cb) where
  -- A number of calls in a row: the picks and the pool after them.
  pub serve : ℕ → BackendPool Cb → List (Option ℕ) × BackendPool Cb
  serve zero p = ([], p)
  serve (suc k) p =
      let (p', r) = get_next_by_weighted_round_robin env p in
      let (rs, p'') = serve k p' in (r ∷ rs, p'')

  -- The invariant after `m` calls more, and what they leave as it was.
  serve-After :
      (m k total : ℕ) (p : BackendPool Cb) (ns : List ℕ)
      → After env k total p ns
      → k + m ≤ total
      → total * total < 2 ^ 63
      → let (rs, p') = serve m p in
        (ns' : List ℕ) × After env (k + m) total p' ns'
        × (p' ≡ record p { backends = p'.backends })
        × (map forget p'.backends ≡ map forget p.backends)
        × ((i n : ℕ) → get_elem? ns i ≡ some n → get_elem? ns' i ≡ some (n + times i rs))
  unfolding serve
  serve-After zero k total p ns a h r = (ns, rw add-zero a, refl, refl, λ i n e. rw (e, add-zero))
  serve-After (suc m) k total p ns a h r =
      let shift : suc k + m ≡ k + suc m = omega arith in
      let (j, bs, e, a', same, lt) = call-After env k total p ns a (omega arith) r in
      let (ns', a'', whole, same', count) =
        serve-After m (suc k) total (record p { backends = bs }) (modify ns j suc) a' (omega arith)
          r in
      rw e (
        ns',
        rw (← shift) a'',
        whole,
        same' ∙ same,
        λ i n at_i.
            times-modify-suc j i n ns ns' (serve m (record p { backends = bs })).0 at_i (count i),
      )

  -- Weights above or at zero, and no current weight yet, as the constructors leave a pool.
  abbrev pub IsFresh : BackendPool Cb → Type 0
  IsFresh p = All (λ b. (neg_part b.weight ≡ 0) × (b.current_weight ≡ pos 0)) p.backends

  picked_as_weight :
      (ns : List ℕ) (bs' bs : List (Backend Cb)) (i : ℕ) (b : Backend Cb) (t : ℕ)
      → get_elem? bs i ≡ some b
      → ns ≡ map (effective env) bs'
      → bs' ≡ bs
      → get_elem? ns i ≡ some (0 + t)
      → t ≡ (if available env b then pos_part b.weight else 0)
  picked_as_weight ns bs' bs i b t found counts back at_i =
      let e : some (0 + t) ≡ some (effective env b) =
        sym at_i ∙ rw (counts, back) (get_elem?-map (effective env) bs i found) in
      sym (zero-add t) ∙ some-injective (0 + t) (effective env b) e ∙ effective_lem env b

  -- If every current weight is 0, and the sum of the weights of the available backends is above 0
  -- with a square that an int64 holds, then as many calls as that sum pick each available backend
  -- exactly as often as its weight, pick no other, and leave the pool as it was.
  pub weighted_cycle :
      (p : BackendPool Cb)
      → IsFresh p
      → let total = sum_effective env p.backends in
        0 < total
        → total * total < 2 ^ 63
        → let (rs, p') = serve total p in
          (p' ≡ p)
          × ((i : ℕ) (b : Backend Cb)
              → get_elem? p.backends i ≡ some b
              → times i rs ≡ (if available env b then pos_part b.weight else 0))
  weighted_cycle p fresh positive room =
      let total = sum_effective env p.backends in
      let ns : List ℕ = map (λ _. 0) p.backends in
      let start : After env 0 total p ns = record {
        tracks = IsFresh-TracksAll env total p.backends fresh (omega arith) positive;
        calls = sum-zeros p.backends;
        weights = refl;
      } in
      let (ns', a, whole, same, count) = serve-After total 0 total p ns start (omega arith) room in
      let (rs, p') = serve total p in
      let (counts, settled) =
        cycle_even env total p'.backends ns' positive (rw zero-add at a.tracks)
          (a.calls ∙ zero-add total ∙ sym a.weights) in
      let back : p'.backends ≡ p.backends =
        sym settled ∙ same ∙ forget-IsFresh env p.backends fresh in
      (
        whole ∙ rw back,
        λ i b found.
            picked_as_weight ns' p'.backends p.backends i b (times i rs) found counts back
              (count i 0 (get_elem?-map (λ _. 0) p.backends i found)),
      )
