-- ===== src/Samples/Store.antt =====
-- A Redis server of the examples: a function from keys to counters.
use go_load_balancer.Prelude.{ℕ, suc, ◌+◌, ◌*◌, true, some, arith, ltb, if◌then◌else◌}
use go_load_balancer.Prelude.Int.{pos}
use go_load_balancer.Text.{Str, eqs, eqs_iff, eqs_refl}
use go_load_balancer.RateLimit.{Redis, IsRedis, second}

-- Under each key a counter, and the time at which it is gone.
abbrev pub Store : Type 0
Store = Str → ℕ × ℕ

abbrev counted : ℕ → Str → Store → ℕ
counted t key db = if ltb t (db key).1 then (db key).0 else 0

abbrev put : Str → ℕ × ℕ → Store → Store
put key entry db = λ k. if eqs k key then entry else db k

abbrev pub store : Redis Store
store = record {
  ping = λ c. true;
  incr_expire = λ t key ttl db.
      (some (pos (suc (counted t key db))), put key (suc (counted t key db), t + ttl * second) db);
  count = counted;
}

pub store-IsRedis : IsRedis store
store-IsRedis = record {
  answers = λ t key ttl db n h. ground (arith, h);
  lasts = λ t key ttl db n t' h k l. rw (eqs_refl key) (ground (arith, l));
  expires = λ t key ttl db n t' h k. rw (eqs_refl key) (ground (arith, k));
  others = λ t key ttl db n t' other h ne. ground (arith, eqs_iff other key, ne);
}
