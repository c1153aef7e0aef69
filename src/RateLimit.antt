-- ===== src/RateLimit.antt =====
-- internal/lb/ratelimit.go: the limit on the requests of a client, counted in Redis. The server is a
-- parameter: a time is a number of nanoseconds, and `Db` is what the server stores.
pub mod Counts
mod Examples
use go_load_balancer.Prelude.{
  ℕ, suc, ◌≡◌, ◌≢◌, ◌+◌, ◌*◌, ◌≤◌, ◌<◌, Bool, true, false, not, Option, none, some, List, [], ◌∷◌,
  ◌++◌, if◌then◌else◌,
}
use go_load_balancer.Prelude.Int.{ℤ, pos, ltb_ℤ}
use go_load_balancer.Text.{Str, str}
use go_load_balancer.Config.{RateLimitConfig, RedisConfig}
use go_load_balancer.Extern.{FloatOps}

-- A Redis server and its client. `incr_expire` is the pipeline of INCR and EXPIRE on a key, at a time
-- and with the time to live in seconds: the answer to INCR, or none if the pipeline fails. `count` is
-- what stands under a key at a time, 0 if nothing does.
pub record Redis (Db : Type 0) : Type 0 where
  pub ping : RedisConfig → Bool
  pub incr_expire : ℕ → Str → ℕ → Db → Option ℤ × Db
  pub count : ℕ → Str → Db → ℕ

abbrev pub second : ℕ
second = 1000000000

-- What INCR and EXPIRE document of a pipeline that does not fail: the answer is the counter's new
-- value, the key lasts for the time to live and is gone after it, and other keys are untouched.
pub record IsRedis {Db : Type 0} (redis : Redis Db) : Type 0 where
  pub answers :
      (t : ℕ) (key : Str) (ttl : ℕ) (db : Db) (n : ℤ)
      → (redis.incr_expire t key ttl db).0 ≡ some n
      → n ≡ pos (suc (redis.count t key db))
  pub lasts :
      (t : ℕ) (key : Str) (ttl : ℕ) (db : Db) (n : ℤ) (t' : ℕ)
      → (redis.incr_expire t key ttl db).0 ≡ some n
      → t ≤ t'
      → t' < t + ttl * second
      → redis.count t' key (redis.incr_expire t key ttl db).1 ≡ suc (redis.count t key db)
  pub expires :
      (t : ℕ) (key : Str) (ttl : ℕ) (db : Db) (n : ℤ) (t' : ℕ)
      → (redis.incr_expire t key ttl db).0 ≡ some n
      → t + ttl * second ≤ t'
      → redis.count t' key (redis.incr_expire t key ttl db).1 ≡ 0
  pub others :
      (t : ℕ) (key : Str) (ttl : ℕ) (db : Db) (n : ℤ) (t' : ℕ) (other : Str)
      → (redis.incr_expire t key ttl db).0 ≡ some n
      → other ≢ key
      → redis.count t' other (redis.incr_expire t key ttl db).1 ≡ redis.count t' other db

pub record RateLimiter : Type 0 where
  pub client : RedisConfig
  pub limit : ℤ

-- What Allow makes of the answer to INCR. A failed pipeline lets the request pass.
pub verdict : ℤ → Option ℤ → Bool
verdict limit none = true
verdict limit (some n) = if ltb_ℤ limit n then false else true

abbrev pub key_of : Str → Str
key_of ip = str "ratelimit:" ++ ip

module _ {Db : Type 0} (redis : Redis Db) where
  -- NewRateLimiter
  unfoldable pub new_rate_limiter :
      FloatOps → Option RateLimitConfig → Option RedisConfig → Option RateLimiter
  new_rate_limiter f rl_cfg none = none
  new_rate_limiter f none (some redis_cfg) = none
  new_rate_limiter f (some rl_cfg) (some redis_cfg) =
      if f.is_zero rl_cfg.requests_per_second
      then none
      else if redis.ping redis_cfg
      then some (record { client = redis_cfg; limit = f.to_int rl_cfg.requests_per_second })
      else none

  -- Allow
  unfoldable pub allow : RateLimiter → ℕ → Str → Db → Bool × Db
  unfolding verdict
  allow rl t ip db =
      let (count, db') = redis.incr_expire t (key_of ip) 1 db in (verdict rl.limit count, db')

  -- The calls of Allow for one client, at their times.
  pub allow_all : RateLimiter → Str → List ℕ → Db → List Bool
  unfolding allow
  allow_all rl ip [] db = []
  allow_all rl ip (t ∷ ts) db =
      let (answer, db') = allow rl t ip db in answer ∷ allow_all rl ip ts db'
