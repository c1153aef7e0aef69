-- ===== src/Strategy/Weighted/Loop.antt =====
-- The loop of GetNextBackendByWeightedRoundRobin: what it writes, and which position it picks.
use go_load_balancer.Prelude.{
  ℕ, suc, ◌+◌, ◌^◌, ◌<◌, ◌≡◌, refl, ap, ◌∙◌, inl, inr, ◌⊎◌, Bool, true, false, Option, none, some,
  List, [], ◌∷◌, map, arith, if◌then◌else◌, get_elem?, modify, All, Bool-cases,
}
use native.Mathlib.Nat.{zero-add}
use go_load_balancer.Prelude.Int.{
  ℤ, pos, pos_part, neg_part, ltb_ℤ, ◌+ℤ◌, +ℤ_parts, add64-eq, eq_of_parts,
}
use go_load_balancer.Extern.{Env}
use go_load_balancer.Backend.{Backend, BackendPool}
use go_load_balancer.Strategy.{
  available, skipped, Scan, beats, raise_weight, visit, visited, raised, weighted_loop,
  lower_weight, settle_weights, get_next_by_weighted_round_robin,
}
use go_load_balancer.Strategy.Argmin.{argmin, better, argmin_lem, argmin-picked, IsLeast, Picks}

-- The order in which a weight beats the best so far: none at all is the least.
abbrev pub above : Option ℤ → Option ℤ → Bool
above none m = false
above (some w) none = true
above (some w) (some m) = ltb_ℤ m w

above_irrefl : (a : Option ℤ) → above a a ≡ false
above_irrefl none = refl
above_irrefl (some w) = ground arith

above_trans : (a b c : Option ℤ) → above a b ≡ true → above b c ≡ true → above a c ≡ true
above_trans none b c h k = ground arith
above_trans (some w) none c h k = ground arith
above_trans (some w) (some m) none h k = refl
above_trans (some w) (some m) (some l) h k = ground arith

module _ {Cb : Type 0} where
  abbrev pub raised_key : Backend Cb → Option ℤ
  raised_key b = some (raise_weight b).current_weight

module _ {Cb : Type 0} (env : Env Cb) where
  position : Option (ℕ × ℤ) → Option ℕ
  position none = none
  position (some (i, w)) = some i

  top : Option (ℕ × ℤ) → Option ℤ
  top none = none
  top (some (i, w)) = some w

  weighted_loop-map :
      (i : ℕ) (s : Scan) (bs : List (Backend Cb))
      → (weighted_loop env i s bs).0 ≡ map (raised env) bs
  unfolding weighted_loop
  weighted_loop-map i s [] = refl
  weighted_loop-map i s (b ∷ bs) =
      ap (λ (l : List (Backend Cb)). raised env b ∷ l) (weighted_loop-map (suc i) _ bs)

  visited-position :
      (i : ℕ) (b : Backend Cb) (s : Scan)
      → (position (visited env i b s).best ≡ (
          if better (skipped env) raised_key above b (top s.best) then some i else position s.best))
        × (top (visited env i b s).best ≡ (
            if better (skipped env) raised_key above b (top s.best)
            then raised_key b
            else top s.best))
  unfolding visited visit raise_weight position top better beats
  visited-position i b s = ground arith

  weighted_loop-argmin :
      (i : ℕ) (s : Scan) (bs : List (Backend Cb))
      → position (weighted_loop env i s bs).1.best
        ≡ argmin (skipped env) raised_key above i (position s.best) (top s.best) bs
  unfolding weighted_loop argmin
  weighted_loop-argmin i s [] = refl
  weighted_loop-argmin i s (b ∷ bs) =
      let (e, t) = visited-position i b s in
      rw (← e, ← t) (weighted_loop-argmin (suc i) (visited env i b s) bs)

  -- The weights that count, of the backends that are not skipped.
  unfoldable pub effective : Backend Cb → ℕ
  effective b = if skipped env b then 0 else pos_part b.weight

  pub effective_lem :
      (b : Backend Cb) → effective b ≡ (if available env b then pos_part b.weight else 0)
  unfolding effective skipped available
  effective_lem b = ground arith

  abbrev pub sum_effective : List (Backend Cb) → ℕ
  sum_effective [] = 0
  sum_effective (b ∷ bs) = effective b + sum_effective bs

  total_visited :
      (i : ℕ) (b : Backend Cb) (s : Scan) (t : ℕ)
      → s.total_weight ≡ pos t
      → neg_part b.weight ≡ 0
      → t + effective b < 2 ^ 63
      → (visited env i b s).total_weight ≡ pos (t + effective b)
  unfolding visited visit effective
  total_visited i b s t e h room = elim (Bool-cases (skipped env b)) [
    | inl off ↦ ground arith
    | inr on ↦ ground (
      arith,
      add64-eq s.total_weight b.weight,
      +ℤ_parts s.total_weight b.weight,
      eq_of_parts (s.total_weight +ℤ b.weight) (pos (t + pos_part b.weight)),
    )
  ]

  -- The total weight of the loop is the sum of the weights that count.
  pub weighted_loop-total :
      (i : ℕ) (s : Scan) (bs : List (Backend Cb)) (t : ℕ)
      → s.total_weight ≡ pos t
      → All (λ b. neg_part b.weight ≡ 0) bs
      → t + sum_effective bs < 2 ^ 63
      → (weighted_loop env i s bs).1.total_weight ≡ pos (t + sum_effective bs)
  unfolding weighted_loop
  weighted_loop-total i s [] t e h room = ground arith
  weighted_loop-total i s (b ∷ bs) t e h room =
      weighted_loop-total (suc i) (visited env i b s) bs (t + effective b)
        (total_visited i b s t e h.0 (omega arith)) h.1 (omega arith)
      ∙ ap pos (omega arith)

  -- The position that the loop picks.
  pub pick : List (Backend Cb) → Option ℕ
  pick bs = argmin (skipped env) raised_key above 0 none none bs

  -- What a call leaves, from the position and the total weight.
  abbrev pub lowered : ℤ → List (Backend Cb) → Option ℕ → List (Backend Cb)
  lowered total bs none = bs
  lowered total bs (some i) = modify bs i (lower_weight total)

  settle_weights_lem :
      (p : BackendPool Cb) (bs : List (Backend Cb)) (s : Scan)
      → settle_weights p (bs, s)
        ≡ (record p { backends = lowered s.total_weight bs (position s.best) }, position s.best)
  unfolding settle_weights position
  settle_weights_lem p bs s = ground arith

  -- The answer of a call, whatever the weights.
  pub weighted_answer :
      (p : BackendPool Cb) → (get_next_by_weighted_round_robin env p).1 ≡ pick p.backends
  unfolding get_next_by_weighted_round_robin pick position argmin top
  weighted_answer p =
      let start : Scan = record { best = none; total_weight = pos 0 } in
      let (bs, s) = weighted_loop env 0 start p.backends in
      ap (λ (r : BackendPool Cb × Option ℕ). r.1) (settle_weights_lem p bs s)
      ∙ weighted_loop-argmin 0 start p.backends

  -- The pool that a call leaves, whatever the weights.
  pub weighted_pool :
      (p : BackendPool Cb)
      → (total : ℤ) × ((get_next_by_weighted_round_robin env p).0
          ≡ record p { backends = lowered total (map (raised env) p.backends) (pick p.backends) })
  unfolding get_next_by_weighted_round_robin pick position argmin top
  weighted_pool p =
      let start : Scan = record { best = none; total_weight = pos 0 } in
      let (bs, s) = weighted_loop env 0 start p.backends in
      (
        s.total_weight,
        ap (λ (r : BackendPool Cb × Option ℕ). r.0) (settle_weights_lem p bs s)
            ∙ rw (weighted_loop-map 0 start p.backends, weighted_loop-argmin 0 start p.backends),
      )

  -- With weights above zero whose sum an int holds, a call writes the raised weights, lowers the
  -- picked one by the sum, and answers the pick.
  pub weighted_result :
      (p : BackendPool Cb)
      → All (λ b. neg_part b.weight ≡ 0) p.backends
      → sum_effective p.backends < 2 ^ 63
      → get_next_by_weighted_round_robin env p ≡ (
        record p {
          backends =
              lowered
                (pos (sum_effective p.backends))
                (map (raised env) p.backends)
                (pick p.backends);
        },
        pick p.backends,
      )
  unfolding get_next_by_weighted_round_robin pick position argmin top
  weighted_result p h room =
      let start : Scan = record { best = none; total_weight = pos 0 } in
      let (bs, s) = weighted_loop env 0 start p.backends in
      settle_weights_lem p bs s
      ∙ rw (
        weighted_loop-map 0 start p.backends,
        weighted_loop-total 0 start p.backends 0 refl h (omega arith),
        weighted_loop-argmin 0 start p.backends,
        zero-add,
      )

  -- If the loop picks nothing every backend is skipped; else it picks a greatest raised weight.
  pub pick-cases :
      (bs : List (Backend Cb))
      → ((pick bs ≡ none) × IsLeast (skipped env) raised_key above none bs)
        ⊎ Picks (skipped env) raised_key above 0 none bs (pick bs)
  unfolding pick
  pick-cases bs = argmin_lem (skipped env) raised_key above above_irrefl above_trans 0 none none bs

  pub pick-available :
      (bs : List (Backend Cb)) (i : ℕ)
      → pick bs ≡ some i
      → (b : Backend Cb) × (get_elem? bs i ≡ some b) × (available env b ≡ true)
  unfolding pick skipped available
  pick-available bs i e =
      let (b, found, used) = argmin-picked (skipped env) raised_key above none bs i e in
      (b, found, ground arith)
