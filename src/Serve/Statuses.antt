-- ===== src/Serve/Statuses.antt =====
-- The handler of internal/lb/loadbalancer.go after a backend's answer: the status and the body that
-- the client gets, and what the circuit breaker is told.
use go_load_balancer.Prelude.{
  ℕ, ◌≡◌, ◌≤◌, refl, ap, ◌∙◌, Bool, true, false, none, some, List, arith, Bool-cases, Option-cases,
  inl, inr, ltb, ◌==◌,
}
use go_load_balancer.Text.{Str}
use go_load_balancer.Extern.{Env, FloatOps}
use go_load_balancer.Route.{Request}
use go_load_balancer.Http.{
  Writer, write_header, write_body, add_headers, end_response, CachingRecorder, new_recorder,
  record_header, record_body, Answer, answered, unreachable, proxy, default_error_handler,
  ItemCache,
}
use go_load_balancer.Serve.{
  Exchange, deliver, bad_gateway, breaker_at, complete, settled, on_answer, finish,
}
use go_load_balancer.Serve.Counters.{breaker_at-set_cb, breaker_at-count_out}

-- A response that no handler has written a status to.
abbrev IsFresh : Writer → Type 0
IsFresh w = w.status ≡ none

-- What the handler takes for a success of the call.
abbrev pub is_success : Answer → Bool
is_success (answered status headers body) = ltb status 500
is_success unreachable = true

-- The status that a client sees.
abbrev pub Sees : ℕ → Writer → Type 0
Sees status w = (end_response w).status ≡ some status

default-Sees :
    (answer : Answer) (w : Writer)
    → IsFresh w
    → Sees 200 (deliver (proxy default_error_handler answer (new_recorder w)))
unfolding deliver proxy end_response write_body write_header new_recorder record_header record_body
    add_headers default_error_handler
default-Sees (answered status headers body) w h = elim (Bool-cases (status == 101)) [
  | inl switching ↦ rw (switching, h) refl
  | inr final ↦ rw (final, h) refl
]
default-Sees unreachable w h = rw h refl

logging-Sees :
    (answer : Answer) (w : Writer)
    → IsFresh w
    → Sees 200 (deliver (proxy (λ rec. rec) answer (new_recorder w)))
unfolding deliver proxy end_response write_body write_header new_recorder record_header record_body
    add_headers
logging-Sees (answered status headers body) w h = elim (Bool-cases (status == 101)) [
  | inl switching ↦ rw (switching, h) refl
  | inr final ↦ rw (final, h) refl
]
logging-Sees unreachable w h = rw h refl

-- What the recorder of a proxy that only logs holds of an answer: a 101 is not recorded.
recorded :
    (status : ℕ) (headers : List (Str × Str)) (body : Str) (w : Writer)
    → ltb (proxy (λ rec. rec) (answered status headers body) (new_recorder w)).status 500
      ≡ ltb status 500
unfolding proxy new_recorder record_body record_header
recorded status headers body w = elim (Bool-cases (status == 101)) [
  | inl switching ↦ rw switching (ground (arith, switching))
  | inr final ↦ rw final refl
]

recorded_none :
    (w : Writer) → ltb (proxy (λ rec. rec) unreachable (new_recorder w)).status 500 ≡ true
unfolding proxy new_recorder
recorded_none w = refl

final_status : (status : ℕ) → ltb status 500 ≡ false → (status == 101) ≡ false
final_status status high = ground (arith, high)

lost-Sees :
    (status : ℕ) (headers : List (Str × Str)) (body : Str) (w : Writer)
    → IsFresh w
    → ltb status 500 ≡ false
    → (Sees 200 (bad_gateway (proxy (λ rec. rec) (answered status headers body) (new_recorder w))))
      × ((bad_gateway (proxy (λ rec. rec) (answered status headers body) (new_recorder w))).body
          ≡ w.body)
unfolding bad_gateway proxy end_response new_recorder record_header record_body add_headers
lost-Sees status headers body w h high =
    let final = final_status status high in (rw (final, h) refl, rw final refl)

module _ {Cb K : Type 0} (env : Env Cb) (f : FloatOps) (items : ItemCache K) (t : ℕ)
    (r : Request) where
  settled-Sees :
      (i : ℕ) (c : Cb) (answer : Answer) (ex : Exchange Cb K) (w : Writer)
      → IsFresh w
      → Sees 200 (settled env f items t r i c (proxy (λ rec. rec) answer (new_recorder w)) ex).1
  unfolding settled complete
  settled-Sees i c unreachable ex w h = rw (recorded_none w) (logging-Sees unreachable w h)
  settled-Sees i c (answered status headers body) ex w h = elim (Bool-cases (ltb status 500)) [
    | inl good ↦
        rw (recorded status headers body w, good) (logging-Sees (answered status headers body) w h)
    | inr bad ↦ rw (recorded status headers body w, bad) (lost-Sees status headers body w h bad).0
  ]

  -- Whatever the backend answers, an error status or nothing at all, and with or without a circuit
  -- breaker: if no status has been written before, the client sees a 200.
  pub finish_status_is_200 :
      (i : ℕ) (answer : Answer) (ex : Exchange Cb K) (w : Writer)
      → w.status ≡ none
      → Sees 200 (finish env f items t r i answer ex w).1
  unfolding finish on_answer complete
  finish_status_is_200 i answer ex w h = elim (Option-cases (breaker_at i ex)) [
    | inl bare ↦ rw bare (default-Sees answer w h)
    | inr (c, there) ↦ rw there (settled-Sees i c answer ex w h)
  ]

  complete-breaker :
      (i : ℕ) (rec : CachingRecorder) (ex : Exchange Cb K)
      → breaker_at i (complete env f items t r rec ex).0 ≡ breaker_at i ex
  unfolding complete breaker_at
  complete-breaker i rec ex = refl

  settled-breaker :
      (i : ℕ) (c : Cb) (rec : CachingRecorder) (ex : Exchange Cb K)
      → breaker_at i ex ≡ some c
      → breaker_at i (settled env f items t r i c rec ex).0
        ≡ some (env.settle (ltb rec.status 500) c)
  unfolding settled
  settled-breaker i c rec ex there =
      let told = breaker_at-set_cb i c (env.settle (ltb rec.status 500) c) ex there in
      elim (Bool-cases (ltb rec.status 500)) [
        | inl good ↦ rw good (complete-breaker i rec _ ∙ rw good at told)
        | inr bad ↦ rw bad (rw bad at told)
      ]

  -- What the breaker of the backend is told of an answer: that a status below 500 is a success, one
  -- from 500 on is a failure, and that a backend that cannot be reached is a success.
  pub finish_tells_breaker :
      (i : ℕ) (c : Cb) (answer : Answer) (ex : Exchange Cb K) (w : Writer)
      → breaker_at i ex ≡ some c
      → breaker_at i (finish env f items t r i answer ex w).0
        ≡ some (env.settle (is_success answer) c)
  unfolding finish on_answer proxy new_recorder
  finish_tells_breaker i c (answered status headers body) ex w there =
      breaker_at-count_out i _
      ∙ rw there (settled-breaker i c _ ex there)
      ∙ ap (λ b. some (env.settle b c)) (recorded status headers body w)
  finish_tells_breaker i c unreachable ex w there =
      breaker_at-count_out i _ ∙ rw there (settled-breaker i c _ ex there)

  -- A backend with a circuit breaker answers a status from 500 on: nothing of the answer's body is
  -- written to the client.
  pub finish_failure_is_empty :
      (i : ℕ) (c : Cb) (status : ℕ) (headers : List (Str × Str)) (body : Str) (ex : Exchange Cb K)
      (w : Writer)
      → breaker_at i ex ≡ some c
      → 500 ≤ status
      → (finish env f items t r i (answered status headers body) ex w).1.body ≡ w.body
  unfolding finish on_answer settled proxy record_body record_header new_recorder bad_gateway
      add_headers
  finish_failure_is_empty i c status headers body ex w there high =
      let low : ltb status 500 ≡ false = ground arith in
      let final = final_status status low in rw (there, final, low) refl
