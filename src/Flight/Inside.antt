-- ===== src/Flight/Inside.antt =====
-- How many requests are counted at a backend, and what a move of one of them makes of the number.
use go_load_balancer.Prelude.{
  ℕ, zero, suc, ◌≡◌, ◌+◌, some, List, [], ◌∷◌, ◌++◌, arith, ◌==◌, get_elem?, if◌then◌else◌,
}
use go_load_balancer.Flight.{Pc, arrived, chosen, counted, done, move}

abbrev pub at : ℕ → Pc → ℕ
at i arrived = 0
at i (chosen j) = 0
at i (counted j) = if i == j then 1 else 0
at i done = 0

-- The number of requests that are counted at a position.
abbrev pub inside : ℕ → List Pc → ℕ
inside i [] = 0
inside i (pc ∷ fs) = at i pc + inside i fs

pub inside-move :
    (i : ℕ) (fs : List Pc) (k : ℕ) (pc pc' : Pc)
    → get_elem? fs k ≡ some pc
    → inside i (move fs k pc') + at i pc ≡ inside i fs + at i pc'
inside-move i [] k pc pc' h = cc
inside-move i (p ∷ fs) zero pc pc' h = ground arith
inside-move i (p ∷ fs) (suc k) pc pc' h = omega (arith, inside-move i fs k pc pc' h)

pub inside-append : (i : ℕ) (fs gs : List Pc) → inside i (fs ++ gs) ≡ inside i fs + inside i gs
inside-append i [] gs = omega arith
inside-append i (p ∷ fs) gs = omega (arith, inside-append i fs gs)
