-- ===== src/RateLimit/Examples.antt =====
-- The limiter at a store that is a function of the key, with a limit of two requests.
use go_load_balancer.Prelude.{◌≡◌, refl, true, false, [], ◌∷◌, arith}
use go_load_balancer.Prelude.Int.{pos}
use go_load_balancer.Text.{Str, str}
use go_load_balancer.RateLimit.{RateLimiter, allow_all}
use go_load_balancer.Samples.Store.{Store, store, store-IsRedis}
use go_load_balancer.RateLimit.Counts.{allow_steady}

abbrev limiter : RateLimiter
limiter = record {
  client = record { addr = str "redis:6379"; password = []; db = pos 0 };
  limit = pos 2;
}

abbrev empty : Store
empty = λ k. (0, 0)

abbrev home : Str
home = str "10.0.0.7"

-- Five requests in three and a half seconds.
allow_steady_example :
    allow_all store limiter home (0 ∷ 900000000 ∷ 1800000000 ∷ 2700000000 ∷ 3500000000 ∷ []) empty
    ≡ true ∷ true ∷ false ∷ false ∷ false ∷ []
allow_steady_example =
    allow_steady store store-IsRedis limiter 2 refl home (λ t key ttl db. (_, refl)) 0
      (900000000 ∷ 1800000000 ∷ 2700000000 ∷ 3500000000 ∷ []) empty refl
      (
        omega arith,
        omega arith,
        (omega arith, omega arith, (omega arith, omega arith, (omega arith, omega arith, tt))),
      )
