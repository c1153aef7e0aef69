-- ===== src/Serve/Refines.antt =====
-- The handler of internal/lb/loadbalancer.go as an implementation of `Flight`: what it does to its
-- pool is a sequence of that protocol's steps.
use go_load_balancer.Prelude.{
  ℕ, ltb, ◌≡◌, refl, ap, sym, ◌∙◌, subst, Bool, true, false, Option, none, some, List, Bool-cases,
  Option-cases, inl, inr, get_elem?,
}
use go_load_balancer.Extern.{Env, FloatOps, Refusal}
use go_load_balancer.Backend.{BackendPool}
use go_load_balancer.Strategy.{get_next_backend}
use go_load_balancer.Strategy.Choice.{get_next_backend-IsSound}
use go_load_balancer.Route.{Request}
use go_load_balancer.Http.{Writer, Answer, CachingRecorder, ItemCache, proxy, new_recorder}
use go_load_balancer.Flight.{
  Pc, arrived, chosen, counted, done, entered, left, tripped, chooses, finds_none, skips, enters,
  leaves, trips, Steps, here, next, move,
}
use go_load_balancer.Flight.Moves.{Runs, onward, there_now}
use go_load_balancer.Serve.{
  client_ip, Exchange, Stage, replied, sent, needs_conns, on_pool, count_in, count_out, set_cb,
  breaker_at, lookup_item, on_refusal, admit, on_chosen, choose, on_item, begin, complete, settled,
  on_answer, finish, on_panic, abort,
}

-- Where a stage of the handler stands in the protocol.
abbrev pub pc_of : Stage → Pc
pc_of (replied w) = done
pc_of (sent i) = counted i

module _ {Cb : Type 0} where
  pub entered-strategy :
      (counts : Bool) (i : ℕ) (p : BackendPool Cb) → (entered counts i p).strategy ≡ p.strategy
  entered-strategy true i p = refl
  entered-strategy false i p = refl

module _ {Cb K : Type 0} where
  count_in-pool :
      (i : ℕ) (ex : Exchange Cb K)
      → (count_in i ex).pool ≡ entered (needs_conns ex.pool.strategy) i ex.pool
  unfolding count_in on_pool
  count_in-pool i ex = elim (Bool-cases (needs_conns ex.pool.strategy)) [
    | inl counts ↦ rw counts refl
    | inr free ↦ rw free refl
  ]

  count_out-pool :
      (i : ℕ) (ex : Exchange Cb K)
      → (count_out i ex).pool ≡ left (needs_conns ex.pool.strategy) i ex.pool
  unfolding count_out on_pool
  count_out-pool i ex = elim (Bool-cases (needs_conns ex.pool.strategy)) [
    | inl counts ↦ rw counts refl
    | inr free ↦ rw free refl
  ]

  count_out-pool_of :
      (counts : Bool) (i : ℕ) (ex : Exchange Cb K)
      → needs_conns ex.pool.strategy ≡ counts
      → (count_out i ex).pool ≡ left counts i ex.pool
  count_out-pool_of counts i ex h = count_out-pool i ex ∙ ap (λ b. left b i ex.pool) h

module _ {Cb K : Type 0} (env : Env Cb) (f : FloatOps) (items : ItemCache K) where
  settled-pool :
      (t : ℕ) (r : Request) (i : ℕ) (c : Cb) (rec : CachingRecorder) (ex : Exchange Cb K)
      → (settled env f items t r i c rec ex).0.pool
        ≡ tripped i (some (env.settle (ltb rec.status 500) c)) ex.pool
  unfolding settled complete set_cb on_pool
  settled-pool t r i c rec ex = elim (Bool-cases (ltb rec.status 500)) [
    | inl good ↦ rw good refl
    | inr bad ↦ rw bad refl
  ]

  module _ (counts : Bool) (fs : List Pc) (k : ℕ) where
    refusal_refines :
        (p : BackendPool Cb) (i : ℕ) (refusal : Option Refusal) (ex : Exchange Cb K) (w : Writer)
        → get_elem? fs k ≡ some arrived
        → needs_conns ex.pool.strategy ≡ counts
        → Runs env f counts fs p ex.pool (move fs k (counted i))
        → let (ex', stage) = on_refusal env f items refusal i ex w in
          Runs env f counts fs p ex'.pool (move fs k (pc_of stage))
    unfolding on_refusal
    refusal_refines p i none ex w h flag run = run
    refusal_refines p i (some refusal) ex w h flag run =
        rw (count_out-pool i ex, flag)
          (onward env f counts fs k p ex.pool (left counts i ex.pool) (counted i) done run
            (leaves k i (there_now env f counts fs k arrived (counted i) h)))

    admit_refines :
        (p : BackendPool Cb) (i : ℕ) (cb : Option Cb) (ex : Exchange Cb K) (w : Writer)
        → get_elem? fs k ≡ some arrived
        → needs_conns ex.pool.strategy ≡ counts
        → Runs env f counts fs p ex.pool (move fs k (counted i))
        → let (ex', stage) = admit env f items cb i ex w in
          Runs env f counts fs p ex'.pool (move fs k (pc_of stage))
    unfolding admit set_cb on_pool
    admit_refines p i none ex w h flag run = run
    admit_refines p i (some c) ex w h flag run =
        let (refusal, c') = env.admit c in
        refusal_refines p i refusal (set_cb i c' ex) w h flag (next run (trips i (some c')))

    chosen_refines :
        (i : ℕ) (p : BackendPool Cb) (ex : Exchange Cb K) (w : Writer)
        → get_elem? fs k ≡ some arrived
        → needs_conns ex.pool.strategy ≡ counts
        → Runs env f counts fs p ex.pool (move fs k (chosen i))
        → let (ex', stage) = on_chosen env f items (some i) ex w in
          Runs env f counts fs p ex'.pool (move fs k (pc_of stage))
    unfolding on_chosen
    chosen_refines i p ex w h flag run =
        admit_refines p i (breaker_at i (count_in i ex)) (count_in i ex) w h
          (rw (count_in-pool i ex)
            (ap needs_conns (entered-strategy (needs_conns ex.pool.strategy) i ex.pool) ∙ flag))
          (rw (count_in-pool i ex, flag)
            (onward env f counts fs k p ex.pool (entered counts i ex.pool) (chosen i) (counted i)
              run (enters k i (there_now env f counts fs k arrived (chosen i) h))))

    choose_refines :
        (r : Request) (ex : Exchange Cb K) (w : Writer)
        → get_elem? fs k ≡ some arrived
        → needs_conns ex.pool.strategy ≡ counts
        → let (ex', stage) = choose env f items r ex w in
          Runs env f counts fs ex.pool ex'.pool (move fs k (pc_of stage))
    unfolding choose on_chosen
    choose_refines r ex w h flag =
        let ip = client_ip r in
        let (_, _, strategy) = get_next_backend-IsSound env f ip ex.pool in
        elim (Option-cases (get_next_backend env f ip ex.pool).1) [
          | inl missed ↦ rw missed (next here (finds_none k ip h missed))
          | inr (i, found) ↦ rw found (
              chosen_refines i ex.pool (record ex { pool = (get_next_backend env f ip ex.pool).0 })
                w h (ap needs_conns strategy ∙ flag) (next here (chooses k i ip h found)))
        ]

    -- What the backend's answer does to the pool is no more than a new state of the breaker.
    answer_refines :
        (t : ℕ) (r : Request) (i : ℕ) (cb : Option Cb) (answer : Answer) (ex : Exchange Cb K)
        (w : Writer)
        → Runs env f counts fs ex.pool (on_answer env f items cb t r i answer ex w).0.pool fs
          × ((on_answer env f items cb t r i answer ex w).0.pool.strategy ≡ ex.pool.strategy)
    unfolding on_answer complete
    answer_refines t r i none answer ex w = (here, refl)
    answer_refines t r i (some c) answer ex w =
        let rec = proxy (λ rec. rec) answer (new_recorder w) in
        let pool = settled-pool t r i c rec ex in
        (
          subst (λ p. Runs env f counts fs ex.pool p fs) (sym pool)
              (next here (trips i (some (env.settle (ltb rec.status 500) c)))),
          ap (λ p. p.strategy) pool,
        )

  -- The handler up to the call of the backend, whatever the cache holds, the strategy chooses and the
  -- breaker says: its request goes, by steps of the protocol that leave every other request where it
  -- is, from its arrival to being counted at the backend that it is sent to, or to its end if it has
  -- its reply.
  pub begin_refines :
      (t : ℕ) (r : Request) (ex : Exchange Cb K) (w : Writer) (fs : List Pc) (k : ℕ)
      → get_elem? fs k ≡ some arrived
      → let (ex', stage) = begin env f items t r ex w in
        Steps env f
          (needs_conns ex.pool.strategy)
          (record { pool = ex.pool; flights = fs })
          (record { pool = ex'.pool; flights = move fs k (pc_of stage) })
  unfolding begin on_item
  begin_refines t r ex w fs k h = elim (Option-cases (lookup_item items t r ex.cache)) [
    | inl miss ↦ rw miss (choose_refines (needs_conns ex.pool.strategy) fs k r ex w h refl)
    | inr (item, hit) ↦ rw hit (next here (skips k h))
  ]

  -- The handler from the answer on, whatever the answer is: its request goes, by steps of the
  -- protocol, from being counted to its end.
  pub finish_refines :
      (t : ℕ) (r : Request) (i : ℕ) (answer : Answer) (ex : Exchange Cb K) (w : Writer)
      (fs : List Pc) (k : ℕ)
      → get_elem? fs k ≡ some (counted i)
      → Steps env f
          (needs_conns ex.pool.strategy)
          (record { pool = ex.pool; flights = fs })
          (record {
            pool = (finish env f items t r i answer ex w).0.pool;
            flights = move fs k done;
          })
  unfolding finish
  finish_refines t r i answer ex w fs k h =
      let (run, strategy) =
        answer_refines (needs_conns ex.pool.strategy) fs k t r i (breaker_at i ex) answer ex w in
      rw
        (count_out-pool_of (needs_conns ex.pool.strategy) i
          (on_answer env f items (breaker_at i ex) t r i answer ex w).0 (ap needs_conns strategy))
        (next run (leaves k i h))

  panic_refines :
      (counts : Bool) (fs : List Pc) (i : ℕ) (cb : Option Cb) (ex : Exchange Cb K)
      → Runs env f counts fs ex.pool (on_panic env f items cb i ex).pool fs
        × ((on_panic env f items cb i ex).pool.strategy ≡ ex.pool.strategy)
  unfolding on_panic set_cb on_pool
  panic_refines counts fs i none ex = (here, refl)
  panic_refines counts fs i (some c) ex = (next here (trips i (some (env.settle false c))), refl)

  -- A handler that the proxy's panic ends: its request goes, by steps of the protocol, from being
  -- counted to its end.
  pub abort_refines :
      (i : ℕ) (ex : Exchange Cb K) (fs : List Pc) (k : ℕ)
      → get_elem? fs k ≡ some (counted i)
      → Steps env f
          (needs_conns ex.pool.strategy)
          (record { pool = ex.pool; flights = fs })
          (record { pool = (abort env f items i ex).pool; flights = move fs k done })
  unfolding abort
  abort_refines i ex fs k h =
      let counts = needs_conns ex.pool.strategy in
      let (run, strategy) = panic_refines counts fs i (breaker_at i ex) ex in
      rw
        (count_out-pool_of counts i (on_panic env f items (breaker_at i ex) i ex)
          (ap needs_conns strategy))
        (next run (leaves k i h))
