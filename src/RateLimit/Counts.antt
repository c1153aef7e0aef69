-- ===== src/RateLimit/Counts.antt =====
-- RateLimiter.Allow of internal/lb/ratelimit.go over sequences of calls: which of a client's requests
-- pass.
use go_load_balancer.Prelude.{
  ℕ, suc, ◌≡◌, ◌≢◌, refl, ap, sym, ◌∙◌, ◌+◌, ◌≤◌, ◌<◌, Bool, true, some, List, [], ◌∷◌, arith, leb,
  drop,
}
use go_load_balancer.Prelude.Int.{ℤ, pos}
use go_load_balancer.Text.{Str, str, drop-append}
use go_load_balancer.RateLimit.{
  Redis, IsRedis, RateLimiter, second, verdict, key_of, allow, allow_all,
}

-- Calls that follow one at `t`, each less than a second after the one before.
abbrev pub IsSteady : ℕ → List ℕ → Type 0
IsSteady t [] = Unit
IsSteady t (t' ∷ ts) = (t ≤ t') × (t' < t + second) × IsSteady t' ts

-- The verdicts on the requests from the `n`-th on, under a limit: those up to the limit pass.
abbrev pub first_ones : ℕ → ℕ → List ℕ → List Bool
first_ones limit n [] = []
first_ones limit n (t ∷ ts) = leb n limit ∷ first_ones limit (suc n) ts

verdict-pos : (limit n : ℕ) → verdict (pos limit) (some (pos n)) ≡ leb n limit
unfolding verdict
verdict-pos limit n = ground arith

key_of-injective : (a b : Str) → key_of a ≡ key_of b → a ≡ b
key_of-injective a b h =
    sym (drop-append (str "ratelimit:") a) ∙ ap (drop 10) h ∙ drop-append (str "ratelimit:") b

module _ {Db : Type 0} (redis : Redis Db) (r : IsRedis redis) (rl : RateLimiter) (limit : ℕ)
    (bound : rl.limit ≡ pos limit) (ip : Str)
    (reached : (t : ℕ) (key : Str) (ttl : ℕ) (db : Db)
      → (n : ℤ) × ((redis.incr_expire t key ttl db).0 ≡ some n)) where
  pub allow-verdict :
      (who : Str) (t : ℕ) (db : Db)
      → (allow redis rl t who db).0 ≡ leb (suc (redis.count t (key_of who) db)) limit
  unfolding allow
  allow-verdict who t db =
      let (n, e) = reached t (key_of who) 1 db in
      ap (verdict rl.limit) e
      ∙ ap (λ m. verdict rl.limit (some m)) (r.answers t (key_of who) 1 db n e)
      ∙ ap (λ l. verdict l (some (pos (suc (redis.count t (key_of who) db))))) bound
      ∙ verdict-pos limit (suc (redis.count t (key_of who) db))

  -- The counter before the next call.
  count-later :
      (t t' : ℕ) (db : Db)
      → t ≤ t'
      → t' < t + second
      → redis.count t' (key_of ip) (allow redis rl t ip db).1 ≡ suc (redis.count t (key_of ip) db)
  unfolding allow
  count-later t t' db h k =
      let (n, e) = reached t (key_of ip) 1 db in
      r.lasts t (key_of ip) 1 db n t' e h (omega (arith, k))

  count-expired :
      (t t' : ℕ) (db : Db)
      → t + second ≤ t'
      → redis.count t' (key_of ip) (allow redis rl t ip db).1 ≡ 0
  unfolding allow
  count-expired t t' db h =
      let (n, e) = reached t (key_of ip) 1 db in
      r.expires t (key_of ip) 1 db n t' e (omega (arith, h))

  count-other :
      (t t' : ℕ) (other : Str) (db : Db)
      → other ≢ ip
      → redis.count t' (key_of other) (allow redis rl t ip db).1 ≡ redis.count t' (key_of other) db
  unfolding allow
  count-other t t' other db h =
      let (n, e) = reached t (key_of ip) 1 db in
      r.others t (key_of ip) 1 db n t' (key_of other) e (λ same. h (key_of-injective other ip same))

  allow_all-nil : (db : Db) → allow_all redis rl ip [] db ≡ []
  unfolding allow_all
  allow_all-nil db = refl

  allow_all-cons :
      (t : ℕ) (ts : List ℕ) (db : Db)
      → allow_all redis rl ip (t ∷ ts) db
        ≡ (allow redis rl t ip db).0 ∷ allow_all redis rl ip ts (allow redis rl t ip db).1
  unfolding allow_all
  allow_all-cons t ts db = refl

  -- From the `n`-th request of a client on, while the client is never silent for a second.
  steady :
      (t : ℕ) (ts : List ℕ) (db : Db) (n : ℕ)
      → redis.count t (key_of ip) db ≡ n
      → IsSteady t ts
      → allow_all redis rl ip (t ∷ ts) db ≡ first_ones limit (suc n) (t ∷ ts)
  steady t [] db n h s =
      allow_all-cons t [] db
      ∙ ap (λ b. b ∷ allow_all redis rl ip [] (allow redis rl t ip db).1)
          (allow-verdict ip t db ∙ ap (λ c. leb (suc c) limit) h)
      ∙ ap (λ bs. leb (suc n) limit ∷ bs) (allow_all-nil (allow redis rl t ip db).1)
  steady t (t' ∷ ts) db n h s =
      allow_all-cons t (t' ∷ ts) db
      ∙ ap (λ b. b ∷ allow_all redis rl ip (t' ∷ ts) (allow redis rl t ip db).1)
          (allow-verdict ip t db ∙ ap (λ c. leb (suc c) limit) h)
      ∙ ap (λ bs. leb (suc n) limit ∷ bs)
          (steady t' ts (allow redis rl t ip db).1 (suc n) (count-later t t' db s.0 s.1 ∙ ap suc h)
            s.2)

  -- A client that has sent nothing for a second sends requests, each less than a second after the
  -- one before, and every pipeline reaches the server: the first ones up to the limit are allowed,
  -- and none of the others is, however long the client goes on.
  pub allow_steady :
      (t : ℕ) (ts : List ℕ) (db : Db)
      → redis.count t (key_of ip) db ≡ 0
      → IsSteady t ts
      → allow_all redis rl ip (t ∷ ts) db ≡ first_ones limit 1 (t ∷ ts)
  allow_steady t ts db h s = steady t ts db 0 h s

  -- After a request, whatever the verdict on it was, a silence of a second is enough for the next to
  -- be allowed, if the limit is not zero and the pipelines reach the server.
  pub allow_after_pause :
      (t t' : ℕ) (db : Db)
      → t + second ≤ t'
      → 1 ≤ limit
      → (allow redis rl t' ip (allow redis rl t ip db).1).0 ≡ true
  allow_after_pause t t' db h k =
      allow-verdict ip t' (allow redis rl t ip db).1
      ∙ ap (λ c. leb (suc c) limit) (count-expired t t' db h)
      ∙ ground arith

  -- The requests of one client leave the verdicts on another as they are.
  pub allow_other_client :
      (t t' : ℕ) (other : Str) (db : Db)
      → other ≢ ip
      → (allow redis rl t' other (allow redis rl t ip db).1).0 ≡ (allow redis rl t' other db).0
  allow_other_client t t' other db h =
      allow-verdict other t' (allow redis rl t ip db).1
      ∙ ap (λ c. leb (suc c) limit) (count-other t t' other db h)
      ∙ sym (allow-verdict other t' db)
