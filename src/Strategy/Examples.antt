-- ===== src/Strategy/Examples.antt =====
-- Runs of the strategies, and the theorems about them at concrete pools. The breakers of these pools
-- are their own states, and their floats are whole numbers.
use mathlib.Core.Option.{some-injective}
use go_load_balancer.Prelude.{
  ℕ, zero, suc, ◌<◌, ap, sym, ◌-◌, ◌^◌, ◌≡◌, refl, Bool, true, false, Option, none, some, [], ◌∷◌,
  arith, if◌then◌else◌, get_elem?,
}
use go_load_balancer.Prelude.Int.{pos, pos_part}
use go_load_balancer.Text.{Str, str}
use go_load_balancer.Extern.{CbState, closed, open_state, Env}
use go_load_balancer.Samples.{whole, whole-IsFloat}
use go_load_balancer.Backend.{Backend, BackendPool, get_connections}
use go_load_balancer.Strategy.{
  available, skipped, get_next_by_least_conns, get_next_by_weighted_least_conns,
  get_next_by_round_robin, get_next_backend,
}
use go_load_balancer.Strategy.LeastConns.{
  LeastBy, FewerConns, LowerScore, least_conns_picks_least, weighted_least_picks_least,
}
use go_load_balancer.Strategy.RoundRobin.{FirstInTurn, round_robin_finds}
use go_load_balancer.Strategy.RoundRobin.Wrap.{round_robin_misses_at_wrap}
use go_load_balancer.Strategy.Weighted.Cycle.{serve, times, weighted_cycle}
use go_load_balancer.Strategy.Weighted.Loop.{effective}
use go_load_balancer.Strategy.Choice.{IsSound, get_next_backend-IsSound, get_next_backend_finds}

abbrev env : Env CbState
env = record {
  breakers = record {
    new = λ s. closed;
    state = λ c. c;
    admit = λ c. (none, c);
    settle = λ ok c. c;
  };
  parses = λ s. true;
  order = λ l. l;
}

abbrev server : Str → Bool → ℕ → ℕ → Option CbState → Backend CbState
server addr healthy weight connections cb = record {
  addr = addr;
  healthy = healthy;
  weight = pos weight;
  current_weight = pos 0;
  connections = connections;
  cb = cb;
}

-- The third backend is down, and the circuit of the last is open.
abbrev pool : Str → ℕ → BackendPool CbState
pool strategy current = record {
  backends =
      server (str "a:1") true 3 7 (some closed)
      ∷ server (str "b:1") true 1 2 none
      ∷ server (str "c:1") false 9 0 none
      ∷ server (str "d:1") true 5 0 (some open_state)
      ∷ [];
  strategy = strategy;
  current = current;
}

least_run : get_next_by_least_conns env (pool (str "least-connections") 0) ≡ some 1
unfolding get_next_by_least_conns skipped get_connections
least_run = refl

least_conns_picks_least_example :
    LeastBy env FewerConns (pool (str "") 0) (get_next_by_least_conns env (pool (str "") 0))
unfolding available
least_conns_picks_least_example =
    least_conns_picks_least env (pool (str "") 0) 0 (server (str "a:1") true 3 7 (some closed)) refl
      refl (omega arith)

weighted_least_picks_least_example :
    LeastBy env
      (LowerScore env whole)
      (pool (str "") 0)
      (get_next_by_weighted_least_conns env whole (pool (str "") 0))
unfolding available
weighted_least_picks_least_example =
    weighted_least_picks_least env whole whole-IsFloat (pool (str "") 0) 0
      (server (str "a:1") true 3 7 (some closed)) refl refl (omega arith)

round_robin_finds_example :
    FirstInTurn env (pool (str "") 4) (get_next_by_round_robin env (pool (str "") 4))
unfolding available
round_robin_finds_example =
    round_robin_finds env (pool (str "") 4) 0 (server (str "a:1") true 3 7 (some closed)) refl refl
      (omega arith)

abbrev wrapping : BackendPool CbState
wrapping = record {
  backends =
      server (str "a:1") false 1 0 none
      ∷ server (str "b:1") true 1 0 (some open_state)
      ∷ server (str "c:1") true 1 0 none
      ∷ [];
  strategy = str "round-robin";
  current = 2 ^ 64 - 2;
}

down_before_last :
    (i : ℕ) (b : Backend CbState)
    → i < 2
    → get_elem? wrapping.backends i ≡ some b
    → available env b ≡ false
unfolding available
down_before_last zero b low h =
    ap (available env) (sym (some-injective (server (str "a:1") false 1 0 none) b h))
down_before_last (suc zero) b low h =
    ap (available env) (sym (some-injective (server (str "b:1") true 1 0 (some open_state)) b h))
down_before_last (suc (suc i)) b low h = absurd (omega (arith, low))

round_robin_misses_at_wrap_example : (get_next_by_round_robin env wrapping).1 ≡ none
round_robin_misses_at_wrap_example =
    round_robin_misses_at_wrap env wrapping 2 refl (omega arith) (λ e. omega (arith, e)) refl
      down_before_last

weighted_cycle_example :
    let (rs, p') = serve env 4 (pool (str "") 0) in
    (p' ≡ pool (str "") 0)
    × ((i : ℕ) (b : Backend CbState)
        → get_elem? (pool (str "") 0).backends i ≡ some b
        → times i rs ≡ (if available env b then pos_part b.weight else 0))
unfolding effective skipped
weighted_cycle_example =
    weighted_cycle env (pool (str "") 0) (ground arith) (omega arith) (omega arith)

get_next_backend-IsSound_example :
    IsSound env
      (pool (str "weighted-round-robin") 0)
      (get_next_backend env whole (str "10.0.0.7") (pool (str "weighted-round-robin") 0))
get_next_backend-IsSound_example =
    get_next_backend-IsSound env whole (str "10.0.0.7") (pool (str "weighted-round-robin") 0)

get_next_backend_finds_example :
    (i : ℕ) × ((get_next_backend env whole (str "") (pool (str "ip-hash") 0)).1 ≡ some i)
unfolding available
get_next_backend_finds_example =
    get_next_backend_finds env whole (str "") (pool (str "ip-hash") 0) 0
      (server (str "a:1") true 3 7 (some closed)) whole-IsFloat refl refl (omega arith)
      (omega arith)
