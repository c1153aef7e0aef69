-- ===== src/Serve.antt =====
-- internal/lb/loadbalancer.go: the handler of a route, from a request to its reply. `begin` is what
-- comes before the backend is asked, `finish` what follows its answer; between the two other
-- requests run.
pub mod Counters
pub mod Statuses
pub mod Caching
pub mod Copied
pub mod Refines
pub mod Events
pub mod Runs
mod Examples
use go_load_balancer.Prelude.{
  ℕ, Bool, true, false, not, ◌||◌, ◌&&◌, Option, none, some, List, [], ◌∷◌, ◌++◌, ltb,
  if◌then◌else◌, get_elem?, modify,
}
use go_load_balancer.Text.{Str, str, eqs, split_host_port}
use go_load_balancer.Extern.{Env, FloatOps, Refusal}
use go_load_balancer.Backend.{Backend, BackendPool, increment_connections, decrement_connections}
use go_load_balancer.Strategy.{get_next_backend}
use go_load_balancer.Route.{Request}
use go_load_balancer.Http.{
  Writer, write_header, write_body, add_headers, http_error, CachingRecorder, new_recorder, Answer,
  proxy, default_error_handler, CacheItem, ItemCache,
}

-- clientIP, which is empty if RemoteAddr has no port.
unfoldable pub client_ip : Request → Str
client_ip r = elim (split_host_port r.remote_addr) [ none ↦ [] | some (host, port) ↦ host ]

-- What a handler reaches: the pool of its route, and lb.cache.
pub record Exchange (Cb K : Type 0) : Type 0 where
  pub pool : BackendPool Cb
  pub cache : Option K

-- Where a request stands after `begin`: it has its reply, or it waits for the backend of a position.
pub data Stage : Type 0 where
  replied : Writer → Stage
  sent : ℕ → Stage

unfoldable pub is_get : Request → Bool
is_get r = eqs r.method (str "GET")

unfoldable pub cache_key : Request → Str
cache_key r = r.host ++ r.path

-- The reply from the cache.
unfoldable pub replay : CacheItem → Writer → Writer
replay item w = write_body item.body (write_header item.status (add_headers item.headers w))

-- strategyNeedsConns
unfoldable pub needs_conns : Str → Bool
needs_conns strategy =
    eqs strategy (str "least-connections") || eqs strategy (str "weighted-least-connections")

module _ {K : Type 0} (items : ItemCache K) where
  unfoldable pub lookup_item : ℕ → Request → Option K → Option CacheItem
  unfolding is_get cache_key
  lookup_item t r none = none
  lookup_item t r (some k) = if is_get r then items.get t (cache_key r) k else none

  unfoldable pub store_item : ℕ → Request → CachingRecorder → Option K → Option K
  unfolding is_get cache_key
  store_item t r rec none = none
  store_item t r rec (some k) =
      if is_get r && ltb rec.status 500
      then some (
          items.set t (cache_key r)
            (record { status = rec.status; headers = rec.writer.headers; body = rec.body }) k)
      else some k

-- The last lines of the handler: the recorded response is written out.
unfoldable pub deliver : CachingRecorder → Writer
deliver rec =
    write_body rec.body
      (if not rec.wrote_header then write_header rec.status rec.writer else rec.writer)

-- The reply to an error that Execute returns of the call itself.
unfoldable pub bad_gateway : CachingRecorder → Writer
bad_gateway rec =
    if not rec.wrote_header then http_error (str "Bad Gateway") 502 rec.writer else rec.writer

module _ {Cb K : Type 0} where
  unfoldable pub on_pool : (List (Backend Cb) → List (Backend Cb)) → Exchange Cb K → Exchange Cb K
  on_pool f ex = record ex { pool = record ex.pool { backends = f ex.pool.backends } }

  -- IncrementConnections and the deferred DecrementConnections, for a strategy that counts.
  unfoldable pub count_in : ℕ → Exchange Cb K → Exchange Cb K
  count_in i ex =
      if needs_conns ex.pool.strategy
      then on_pool (λ bs. modify bs i increment_connections) ex
      else ex

  unfoldable pub count_out : ℕ → Exchange Cb K → Exchange Cb K
  count_out i ex =
      if needs_conns ex.pool.strategy
      then on_pool (λ bs. modify bs i decrement_connections) ex
      else ex

  unfoldable pub set_cb : ℕ → Cb → Exchange Cb K → Exchange Cb K
  set_cb i c = on_pool (λ bs. modify bs i (λ b. record b { cb = some c }))

  -- The breaker of the backend at a position.
  unfoldable pub breaker_at : ℕ → Exchange Cb K → Option Cb
  breaker_at i ex = elim (get_elem? ex.pool.backends i) [ none ↦ none | some b ↦ b.cb ]

module _ {Cb K : Type 0} (env : Env Cb) (f : FloatOps) (items : ItemCache K) where
  -- The circuit breaker's word on the request.
  on_refusal : Option Refusal → ℕ → Exchange Cb K → Writer → Exchange Cb K × Stage
  on_refusal none i ex w = (ex, sent i)
  on_refusal (some refusal) i ex w =
      (count_out i ex, replied (http_error (str "Service unavailable (Circuit OPEN)") 503 w))

  unfoldable pub admit : Option Cb → ℕ → Exchange Cb K → Writer → Exchange Cb K × Stage
  unfolding on_refusal
  admit none i ex w = (ex, sent i)
  admit (some c) i ex w = let (refusal, c') = env.admit c in on_refusal refusal i (set_cb i c' ex) w

  unfoldable pub on_chosen : Option ℕ → Exchange Cb K → Writer → Exchange Cb K × Stage
  on_chosen none ex w = (ex, replied (http_error (str "Service unavailable") 503 w))
  on_chosen (some i) ex w = let ex' = count_in i ex in admit (breaker_at i ex') i ex' w

  unfoldable pub choose : Request → Exchange Cb K → Writer → Exchange Cb K × Stage
  choose r ex w =
      let (pool, chosen) = get_next_backend env f (client_ip r) ex.pool in
      on_chosen chosen (record ex { pool = pool }) w

  unfoldable pub on_item :
      Option CacheItem → Request → Exchange Cb K → Writer → Exchange Cb K × Stage
  on_item (some item) r ex w = (ex, replied (replay item w))
  on_item none r ex w = choose r ex w

  -- The handler up to the call of the backend.
  unfoldable pub begin : ℕ → Request → Exchange Cb K → Writer → Exchange Cb K × Stage
  begin t r ex w = on_item (lookup_item items t r ex.cache) r ex w

  -- The reply is stored and written, if nothing has failed.
  unfoldable pub complete : ℕ → Request → CachingRecorder → Exchange Cb K → Exchange Cb K × Writer
  complete t r rec ex = (record ex { cache = store_item items t r rec ex.cache }, deliver rec)

  -- With a breaker the proxy's ErrorHandler only logs, and a status from 500 on is a failure.
  unfoldable pub settled :
      ℕ → Request → ℕ → Cb → CachingRecorder → Exchange Cb K → Exchange Cb K × Writer
  settled t r i c rec ex =
      let ex' = set_cb i (env.settle (ltb rec.status 500) c) ex in
      if ltb rec.status 500 then complete t r rec ex' else (ex', bad_gateway rec)

  unfoldable pub on_answer :
      Option Cb → ℕ → Request → ℕ → Answer → Exchange Cb K → Writer → Exchange Cb K × Writer
  on_answer none t r i answer ex w =
      complete t r (proxy default_error_handler answer (new_recorder w)) ex
  on_answer (some c) t r i answer ex w =
      settled t r i c (proxy (λ rec. rec) answer (new_recorder w)) ex

  -- The handler from the backend's answer on.
  unfoldable pub finish : ℕ → Request → ℕ → Answer → Exchange Cb K → Writer → Exchange Cb K × Writer
  finish t r i answer ex w =
      let (ex', w') = on_answer (breaker_at i ex) t r i answer ex w in (count_out i ex', w')

  -- The proxy panics where it cannot copy the backend's body to its end. Execute takes the panic for a
  -- failure and panics again; of the handler only its deferred call runs, and nothing is written.
  unfoldable pub on_panic : Option Cb → ℕ → Exchange Cb K → Exchange Cb K
  on_panic none i ex = ex
  on_panic (some c) i ex = set_cb i (env.settle false c) ex

  unfoldable pub abort : ℕ → Exchange Cb K → Exchange Cb K
  abort i ex = count_out i (on_panic (breaker_at i ex) i ex)
