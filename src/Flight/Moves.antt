-- ===== src/Flight/Moves.antt =====
-- Runs of the protocol in which one request moves and the others stay where they are.
use go_load_balancer.Prelude.{
  ℕ, zero, suc, ◌≡◌, refl, ap, subst, Bool, some, List, [], ◌∷◌, get_elem?, get_elem?-modify_self,
}
use go_load_balancer.Extern.{Env, FloatOps}
use go_load_balancer.Backend.{BackendPool}
use go_load_balancer.Flight.{Pc, Step, Steps, next, move}

move-move : (fs : List Pc) (k : ℕ) (a b : Pc) → move (move fs k a) k b ≡ move fs k b
move-move [] k a b = refl
move-move (pc ∷ fs) zero a b = refl
move-move (pc ∷ fs) (suc k) a b = ap (λ gs. pc ∷ gs) (move-move fs k a b)

module _ {Cb : Type 0} (env : Env Cb) (f : FloatOps) (counts : Bool) (fs : List Pc) where
  abbrev pub Runs : BackendPool Cb → BackendPool Cb → List Pc → Type 0
  Runs p p' fs' =
      Steps env f counts (record { pool = p; flights = fs }) (record { pool = p'; flights = fs' })

  -- The request of position `k` has moved.
  pub there_now :
      (k : ℕ) (a pc : Pc) → get_elem? fs k ≡ some a → get_elem? (move fs k pc) k ≡ some pc
  there_now k a pc h = get_elem?-modify_self fs k (λ _. pc) h

  -- It moves once more.
  pub onward :
      (k : ℕ) (p q q' : BackendPool Cb) (a b : Pc)
      → Runs p q (move fs k a)
      → Step env f counts
          (record { pool = q; flights = move fs k a })
          (record { pool = q'; flights = move (move fs k a) k b })
      → Runs p q' (move fs k b)
  onward k p q q' a b run step = subst (λ gs. Runs p q' gs) (move-move fs k a b) (next run step)
