-- ===== src/Extern.antt =====
-- What the program uses of code that it does not hold: the circuit breakers of sony/gobreaker, and
-- the processor's floating-point numbers. Each is a record that the definitions take.
use go_load_balancer.Prelude.{ℕ, ◌≡◌, Bool, true, false, Option, List, ◌<◌, ◌^◌}
use go_load_balancer.Prelude.Int.{ℤ}
use go_load_balancer.Config.{Float64, Duration, BackendConfig}
use go_load_balancer.Text.{Str}

-- gobreaker.State
pub data CbState : Type 0 where
  closed half_open open_state : CbState

-- What Execute answers without a call: gobreaker.ErrOpenState and gobreaker.ErrTooManyRequests.
pub data Refusal : Type 0 where
  err_open_state err_too_many_requests : Refusal

-- gobreaker.Settings. `ready_to_trip` reads the field ConsecutiveFailures of the counts.
pub record Settings : Type 0 where
  pub name : Str
  pub ready_to_trip : ℕ → Bool
  pub timeout : Duration

-- A breaker's state is opaque. `admit` is what Execute does before the call, `settle` what it does
-- after it, with whether the call succeeded.
pub record GoBreaker (Cb : Type 0) : Type 0 where
  pub new : Settings → Cb
  pub state : Cb → CbState
  pub admit : Cb → Option Refusal × Cb
  pub settle : Bool → Cb → Cb

-- The surroundings of a pool: the breakers, whether url.Parse accepts an address after `http://`,
-- and the order in which `range` visits the entries of a map of backends: one function for every build
-- of a pool, where in Go each build may have another order.
pub record Env (Cb : Type 0) : Type 0 where
  pub breakers : GoBreaker Cb
  pub open breakers use *
  pub parses : Str → Bool
  pub order : List BackendConfig → List BackendConfig

-- Float64 arithmetic, on bit patterns.
pub record FloatOps : Type 0 where
  pub inf : Float64
  pub of_uint : ℕ → Float64
  pub of_int : ℤ → Float64
  pub to_int : Float64 → ℤ
  pub is_zero : Float64 → Bool
  pub one : Float64
  pub div : Float64 → Float64 → Float64
  pub lt : Float64 → Float64 → Bool

-- What IEEE 754 says of them: `<` is a strict order, NaN included, and the quotient of a uint64 by
-- one or by the conversion of an int, unless that is zero, is below the infinity.
pub record IsFloat (f : FloatOps) : Type 0 where
  pub lt_irrefl : (a : Float64) → f.lt a a ≡ false
  pub lt_trans : (a b c : Float64) → f.lt a b ≡ true → f.lt b c ≡ true → f.lt a c ≡ true
  pub quotient_one : (c : ℕ) → c < 2 ^ 64 → f.lt (f.div (f.of_uint c) f.one) f.inf ≡ true
  pub quotient_int :
      (c : ℕ) (w : ℤ)
      → c < 2 ^ 64
      → f.is_zero (f.of_int w) ≡ false
      → f.lt (f.div (f.of_uint c) (f.of_int w)) f.inf ≡ true
