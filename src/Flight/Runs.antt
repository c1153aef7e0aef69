-- ===== src/Flight/Runs.antt =====
-- Any number of goroutines that share what holds a pool, in any interleaving with one another and with
-- the health checks of the pool: their parts are moves, of which one may come whenever the goroutine
-- of its position stands before it.
use go_load_balancer.Prelude.{
  ℕ, ◌≡◌, ◌%◌, ◌^◌, refl, ap, ◌∙◌, Bool, true, false, none, some, List, [], ◌∷◌, ◌++◌, arith, ◌==◌,
  if◌then◌else◌, get_elem?, Bool-cases, Option-cases, inl, inr, All,
}
use go_load_balancer.Text.{Str}
use go_load_balancer.Extern.{Env, FloatOps}
use go_load_balancer.Backend.{BackendPool}
use go_load_balancer.Pool.{run_health_checks}
use go_load_balancer.Flight.{
  Pc, arrived, chosen, counted, done, State, Steps, arrives, checks, here, next, move,
}
use go_load_balancer.Flight.Inside.{inside}
use go_load_balancer.Flight.Counts.{counters, counts_at_every_interleaving}

abbrev same_pc : Pc → Pc → Bool
same_pc arrived arrived = true
same_pc (chosen i) (chosen j) = i == j
same_pc (counted i) (counted j) = i == j
same_pc done done = true
same_pc _ _ = false

-- What may happen next: a goroutine starts, the one of a position runs its next part if it stands
-- before that one, or the pool is checked.
pub data Move (E : Type 0) : Type 0 where
  starts : Move E
  runs : ℕ → E → Move E
  is_checked : (Str → Bool) → Move E

-- What the goroutines share, and where each of them stands.
pub record Shared (X : Type 0) : Type 0 where
  pub held : X
  pub flights : List Pc

same_pc_lem : (a b : Pc) → same_pc a b ≡ true → a ≡ b
same_pc_lem arrived arrived h = refl
same_pc_lem arrived (chosen j) h = cc
same_pc_lem arrived (counted j) h = cc
same_pc_lem arrived done h = cc
same_pc_lem (chosen i) arrived h = cc
same_pc_lem (chosen i) (chosen j) h = ap chosen (ground (arith, h))
same_pc_lem (chosen i) (counted j) h = cc
same_pc_lem (chosen i) done h = cc
same_pc_lem (counted i) arrived h = cc
same_pc_lem (counted i) (chosen j) h = cc
same_pc_lem (counted i) (counted j) h = ap counted (ground (arith, h))
same_pc_lem (counted i) done h = cc
same_pc_lem done arrived h = cc
same_pc_lem done (chosen j) h = cc
same_pc_lem done (counted j) h = cc
same_pc_lem done done h = refl

-- The parts of a goroutine: where it stands before one, and what one does.
pub record Parts (Cb X E : Type 0) : Type 0 where
  pub pool_of : X → BackendPool Cb
  pub with_pool : BackendPool Cb → X → X
  pub before : E → Pc
  pub part : E → X → X × Pc

module _ {Cb X E : Type 0} (env : Env Cb) (f : FloatOps) (parts : Parts Cb X E) where
  unfoldable pub run_part : ℕ → E → Shared X → Shared X
  run_part k e s =
      let (x, pc) = parts.part e s.held in record { held = x; flights = move s.flights k pc }

  unfoldable pub make_move : Move E → Shared X → Shared X
  unfolding run_part
  make_move starts s = record s { flights = s.flights ++ arrived ∷ [] }
  make_move (is_checked dials) s = record s {
    held = parts.with_pool (run_health_checks env dials (parts.pool_of s.held)) s.held;
  }
  make_move (runs k e) s = elim (get_elem? s.flights k) [
    | none ↦ s
    | some pc ↦ if same_pc pc (parts.before e) then run_part k e s else s
  ]

  unfoldable pub make_moves : List (Move E) → Shared X → Shared X
  make_moves [] s = s
  make_moves (m ∷ ms) s = make_moves ms (make_move m s)

  abbrev seen : Shared X → State Cb
  seen s = record { pool = parts.pool_of s.held; flights = s.flights }

  -- That the parts implement the protocol, where `Inv` holds, and keep `Inv`.
  pub record IsFlight (counts : Bool) (Inv : X → Type 0) : Type 0 where
    pub pool_of_with : (p : BackendPool Cb) (x : X) → parts.pool_of (parts.with_pool p x) ≡ p
    pub checks_keep :
        (dials : Str → Bool) (x : X)
        → Inv x
        → Inv (parts.with_pool (run_health_checks env dials (parts.pool_of x)) x)
    pub part_keeps : (e : E) (x : X) → Inv x → Inv (parts.part e x).0
    pub refines :
        (e : E) (x : X) (fs : List Pc) (k : ℕ)
        → Inv x
        → get_elem? fs k ≡ some (parts.before e)
        → Steps env f counts
            (record { pool = parts.pool_of x; flights = fs })
            (record {
              pool = parts.pool_of (parts.part e x).0;
              flights = move fs k (parts.part e x).1;
            })

  module _ (counts : Bool) (Inv : X → Type 0) (flight : IsFlight counts Inv) where
    Steps-Steps :
        {s t u : State Cb}
        → Steps env f counts s t
        → Steps env f counts t u
        → Steps env f counts s u
    Steps-Steps run here = run
    Steps-Steps run (next more step) = next (Steps-Steps run more) step

    make_move_refines :
        (m : Move E) (s : Shared X)
        → Inv s.held
        → Steps env f counts (seen s) (seen (make_move m s)) × Inv (make_move m s).held
    unfolding make_move run_part
    make_move_refines starts s inv = (next here arrives, inv)
    make_move_refines (is_checked dials) s inv = (
      rw (flight.pool_of_with (run_health_checks env dials (parts.pool_of s.held)) s.held)
          (next here (checks dials)),
      flight.checks_keep dials s.held inv,
    )
    make_move_refines (runs k e) s inv = elim (Option-cases (get_elem? s.flights k)) [
      | inl out ↦ rw (out, make_move) (here, inv)
      | inr (pc, there) ↦ elim (Bool-cases (same_pc pc (parts.before e))) [
        | inl same ↦
            rw (there, make_move, same)
              (
                flight.refines e s.held s.flights k inv
                    (there ∙ ap some (same_pc_lem pc (parts.before e) same)),
                flight.part_keeps e s.held inv,
              )
        | inr other ↦ rw (there, make_move, other) (here, inv)
      ]
    ]

    make_moves_refine :
        (ms : List (Move E)) (s : Shared X)
        → Inv s.held
        → Steps env f counts (seen s) (seen (make_moves ms s))
    unfolding make_moves
    make_moves_refine [] s inv = here
    make_moves_refine (m ∷ ms) s inv =
        let (steps, inv') = make_move_refines m s inv in
        Steps-Steps steps (make_moves_refine ms (make_move m s) inv')

    -- The counters after any moves, from a pool whose counters are all 0.
    pub moves_are_counted :
        (x : X) (ms : List (Move E))
        → Inv x
        → All (λ b. b.connections ≡ 0) (parts.pool_of x).backends
        → let s = make_moves ms (record { held = x; flights = [] }) in
          (i n : ℕ)
          → get_elem? (counters (parts.pool_of s.held)) i ≡ some n
          → n ≡ (if counts then inside i s.flights else 0) % 2 ^ 64
    moves_are_counted x ms inv idle i n h =
        counts_at_every_interleaving env f counts (parts.pool_of x) idle
          (make_moves_refine ms (record { held = x; flights = [] }) inv) i n h
