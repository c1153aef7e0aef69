-- ===== src/Serve/Copied.antt =====
-- The handler of internal/lb/loadbalancer.go where a backend's answer is copied to the client.
use go_load_balancer.Prelude.{
  ℕ, ◌≡◌, ◌≢◌, ◌≤◌, ◌<◌, refl, true, false, none, some, List, ◌++◌, arith, Option-cases, inl, inr,
  ltb, ◌==◌,
}
use go_load_balancer.Text.{Str}
use go_load_balancer.Extern.{Env, FloatOps}
use go_load_balancer.Route.{Request}
use go_load_balancer.Http.{
  Writer, CachingRecorder, new_recorder, write_body, add_headers, record_header, record_body,
  answered, proxy, default_error_handler, ItemCache,
}
use go_load_balancer.Serve.{Exchange, breaker_at, complete, settled, on_answer, finish, deliver}

pub below_500 : (status : ℕ) → status < 500 → ltb status 500 ≡ true
below_500 status low = ground arith

-- What the recorder holds once the proxy has copied an answer.
abbrev pub copied : ℕ → List (Str × Str) → Str → Writer → CachingRecorder
copied status headers body w = record {
  writer = record w { headers = w.headers ++ headers };
  status = status;
  body = body;
  wrote_header = true;
}

differs_101 : (status : ℕ) → status ≢ 101 → (status == 101) ≡ false
differs_101 status final = ground (arith, final)

-- A proxy copies an answer whatever its ErrorHandler is.
pub copies :
    (handler : CachingRecorder → CachingRecorder) (status : ℕ) (headers : List (Str × Str))
    (body : Str) (w : Writer)
    → status ≢ 101
    → proxy handler (answered status headers body) (new_recorder w) ≡ copied status headers body w
unfolding proxy new_recorder record_body record_header add_headers
copies handler status headers body w final = rw (differs_101 status final) refl

module _ {Cb K : Type 0} (env : Env Cb) (f : FloatOps) (items : ItemCache K) where
  -- What a client gets of an answer from 200 to 499.
  pub finish-delivers :
      (t : ℕ) (r : Request) (i status : ℕ) (headers : List (Str × Str)) (body : Str)
      (ex : Exchange Cb K) (w : Writer)
      → 200 ≤ status
      → status < 500
      → w.status ≡ none
      → (finish env f items t r i (answered status headers body) ex w).1
        ≡ record { headers = w.headers ++ headers; status = some 200; body = w.body ++ body }
  unfolding finish on_answer settled complete deliver write_body
  finish-delivers t r i status headers body ex w final low new =
      let other : status ≢ 101 = λ e. omega (arith, final, e) in
      elim (Option-cases (breaker_at i ex)) [
        | inl bare ↦
            rw (bare, copies default_error_handler status headers body w other) (rw new refl)
        | inr (c, there) ↦
            rw (there, copies (λ rec. rec) status headers body w other, below_500 status low)
              (rw new refl)
      ]
