-- ===== src/Serve/Caching.antt =====
-- The cache of the handler of internal/lb/loadbalancer.go: what is stored after an answer, and what a
-- later request gets.
use go_load_balancer.Prelude.{
  ℕ, ◌≡◌, ◌≢◌, ◌≤◌, ◌<◌, ◌+◌, refl, ap, ◌∙◌, true, none, some, List, ◌++◌, arith, Option-cases, inl,
  inr,
}
use go_load_balancer.Text.{Str}
use go_load_balancer.Extern.{Env, FloatOps}
use go_load_balancer.Route.{Request}
use go_load_balancer.Http.{
  Writer, write_header, write_body, add_headers, answered, default_error_handler, ItemCache,
  IsItemCache,
}
use go_load_balancer.Serve.Copied.{below_500, copied, copies}
use go_load_balancer.Serve.{
  Exchange, replied, is_get, cache_key, replay, lookup_item, store_item, count_out, on_pool, set_cb,
  breaker_at, on_item, begin, complete, settled, on_answer, finish,
}

module _ {Cb K : Type 0} (env : Env Cb) (f : FloatOps) (items : ItemCache K) where
  count_out-cache : (i : ℕ) (ex : Exchange Cb K) → (count_out i ex).cache ≡ ex.cache
  unfolding count_out on_pool
  count_out-cache i ex = ground arith

  -- What an answer below 500 leaves in the cache.
  finish-cache :
      (t : ℕ) (r : Request) (i status : ℕ) (headers : List (Str × Str)) (body : Str)
      (ex : Exchange Cb K) (w : Writer)
      → status < 500
      → status ≢ 101
      → (finish env f items t r i (answered status headers body) ex w).0.cache
        ≡ store_item items t r (copied status headers body w) ex.cache
  unfolding finish on_answer settled complete set_cb on_pool
  finish-cache t r i status headers body ex w low final = elim (Option-cases (breaker_at i ex)) [
    | inl bare ↦
        count_out-cache i _
        ∙ rw (bare, copies default_error_handler status headers body w final) refl
    | inr (c, there) ↦
        count_out-cache i _
        ∙ rw (there, copies (λ rec. rec) status headers body w final, below_500 status low) refl
  ]

  stored :
      (t : ℕ) (r : Request) (status : ℕ) (headers : List (Str × Str)) (body : Str) (w : Writer)
      (k : K)
      → is_get r ≡ true
      → status < 500
      → store_item items t r (copied status headers body w) (some k)
        ≡ some (
            items.set t
              (cache_key r)
              (record { status = status; headers = w.headers ++ headers; body = body })
              k)
  unfolding store_item
  stored t r status headers body w k get low = rw (get, below_500 status low) refl

  replay_lem :
      (status : ℕ) (old headers : List (Str × Str)) (body : Str) (w : Writer)
      → w.status ≡ none
      → replay (record { status = status; headers = old ++ headers; body = body }) w ≡ record {
        headers = w.headers ++ (old ++ headers);
        status = some status;
        body = w.body ++ body;
      }
  unfolding replay write_body write_header add_headers
  replay_lem status old headers body w new = rw new refl

  -- A backend answers a GET with a status from 200 to 499, and a second GET of the same host and path,
  -- from any client and with any query and headers, comes before the item expires: if the cache has
  -- been left alone in between, the client whose response is still unwritten gets the status
  -- and the body of that answer, and after the headers that its response has, those that the first
  -- response had and those of the answer; and neither the pool nor the cache changes.
  pub cached_answer_repeats :
      IsItemCache items
      → (t t' : ℕ) (r r' : Request) (i status : ℕ) (headers : List (Str × Str)) (body : Str)
        (ex ex' : Exchange Cb K) (w w' : Writer) (k : K)
      → ex.cache ≡ some k
      → 200 ≤ status
      → status < 500
      → is_get r ≡ true
      → is_get r' ≡ true
      → r'.host ≡ r.host
      → r'.path ≡ r.path
      → t ≤ t'
      → t' < t + items.ttl
      → ex'.cache ≡ (finish env f items t r i (answered status headers body) ex w).0.cache
      → w'.status ≡ none
      → begin env f items t' r' ex' w' ≡ (
        ex',
        replied (record {
          headers = w'.headers ++ (w.headers ++ headers);
          status = some status;
          body = w'.body ++ body;
        }),
      )
  unfolding begin on_item lookup_item cache_key
  cached_answer_repeats laws t t' r r' i status headers body ex ex' w w' k has final low get get'
        host path from until same new =
      let other : status ≢ 101 = λ e. omega (arith, final, e) in
      let left =
        same
        ∙ finish-cache t r i status headers body ex w low other
        ∙ ap (store_item items t r _) has
        ∙ stored t r status headers body w k get low in
      rw
        (
          left,
          get',
          host,
          path,
          laws.hit t (cache_key r)
              (record { status = status; headers = w.headers ++ headers; body = body }) k t' from
              until,
          replay_lem status w.headers headers body w' new,
        )
        refl
