-- ===== src/Serve/Examples.antt =====
-- The theorems about the handler at one route, with a cache that is a function from keys to items.
use go_load_balancer.Prelude.{
  if◌then◌else◌, List, ◌%◌, ◌^◌, ◌≡◌, refl, true, Option, none, some, [], ◌∷◌, arith,
}
use go_load_balancer.Prelude.Int.{pos}
use go_load_balancer.Text.{Str, str, eqs}
use go_load_balancer.Extern.{CbState, closed}
use go_load_balancer.Backend.{
  Backend, get_connections, increment_connections, decrement_connections,
}
use go_load_balancer.Route.{Request}
use go_load_balancer.Http.{
  proxy, record_body, record_header, Writer, end_response, CacheItem, answered, unreachable,
}
use go_load_balancer.Serve.Statuses.{finish_status_is_200, finish_tells_breaker}
use go_load_balancer.Serve.Caching.{cached_answer_repeats}
use go_load_balancer.Serve.Events.{ServeEvent, begins, finishes, aborts, serve_event}
use go_load_balancer.Serve.Runs.{serve_parts, requests_are_counted}
use go_load_balancer.Flight.Runs.{Move, starts, runs, make_move, make_moves}
use go_load_balancer.Flight.Inside.{inside}
use go_load_balancer.Serve.{
  on_item, choose, on_chosen, lookup_item, admit, count_in, count_out, on_pool, on_answer, complete,
  store_item, Exchange, replied, is_get, needs_conns, breaker_at, begin, finish, abort, on_panic,
  set_cb,
}
use go_load_balancer.Strategy.{get_next_backend, get_next_by_least_conns, skipped}
use go_load_balancer.Samples.{env, whole, Items, items, items-IsGoCache}

abbrev server : Str → Option CbState → Backend CbState
server addr cb = record {
  addr = addr;
  healthy = true;
  weight = pos 1;
  current_weight = pos 0;
  connections = 0;
  cb = cb;
}

abbrev exchange : Exchange CbState (Items CacheItem)
exchange = record {
  pool = record {
    backends = server (str "a:1") none ∷ server (str "b:1") (some closed) ∷ [];
    strategy = str "least-connections";
    current = 0;
  };
  cache = some (λ key. none);
}

abbrev fresh : Writer
fresh = record { headers = []; status = none; body = [] }

abbrev request : Str → Request
request remote = record {
  method = str "GET";
  host = str "example.org";
  path = str "/";
  query = [];
  remote_addr = remote;
  header = λ key. [];
}

there : breaker_at 1 exchange ≡ some closed
unfolding breaker_at
there = refl

-- A backend without a breaker answers 404.
finish_status_is_200_example :
    (end_response
      (finish env whole items 0
        (request (str "10.0.0.7:5123"))
        0
        (answered 404 [] (str "gone"))
        exchange
        fresh).1).status
    ≡ some 200
finish_status_is_200_example =
    finish_status_is_200 env whole items 0 (request (str "10.0.0.7:5123")) 0
      (answered 404 [] (str "gone")) exchange fresh refl

finish_tells_breaker_example :
    breaker_at 1
      (finish env whole items 0 (request (str "10.0.0.7:5123")) 1 unreachable exchange fresh).0
    ≡ some closed
finish_tells_breaker_example =
    finish_tells_breaker env whole items 0 (request (str "10.0.0.7:5123")) 1 closed unreachable
      exchange fresh there

-- An answer with a 404 is repeated to another client ten seconds later, as a 404.
cached_answer_repeats_example :
    let first =
      finish env whole items 5
        (request (str "10.0.0.7:5123"))
        0
        (answered 404 [] (str "gone"))
        exchange
        fresh in
    begin env whole items 15 (request (str "10.0.0.9:40")) first.0 fresh
    ≡ (first.0, replied (record { headers = []; status = some 404; body = str "gone" }))
unfolding is_get eqs
cached_answer_repeats_example =
    cached_answer_repeats env whole items items-IsGoCache 5 15 (request (str "10.0.0.7:5123"))
      (request (str "10.0.0.9:40")) 0 404 [] (str "gone") exchange
      (finish env whole items 5 (request (str "10.0.0.7:5123")) 0 (answered 404 [] (str "gone"))
        exchange fresh).0
      fresh fresh (λ key. none) refl (omega arith) (omega arith) refl refl refl refl (omega arith)
      (omega arith) refl refl

-- Three requests, of which the first has been answered, the second has been sent, and the third has
-- been ended by a panic of its proxy.
abbrev moves : List (Move ServeEvent)
moves =
    starts
    ∷ runs 0 (begins 0 (request (str "10.0.0.7:5123")) fresh)
    ∷ starts
    ∷ runs 0 (finishes 1 (request (str "10.0.0.7:5123")) 0 (answered 500 [] []) fresh)
    ∷ runs 1 (begins 2 (request (str "10.0.0.9:40")) fresh)
    ∷ starts
    ∷ runs 2 (begins 2 (request (str "10.0.0.9:41")) fresh)
    ∷ runs 2 (aborts 1)
    ∷ []

requests_are_counted_example :
    1
    ≡ (if needs_conns exchange.pool.strategy
        then inside 0
            (make_moves env whole
              (serve_parts env whole items)
              moves
              (record { held = exchange; flights = [] })).flights
        else 0)
      % 2 ^ 64
unfolding make_moves make_move serve_event begin finish on_item lookup_item eqs choose on_chosen
    get_next_backend get_next_by_least_conns skipped get_connections admit breaker_at count_in
    count_out needs_conns on_pool increment_connections decrement_connections on_answer complete
    store_item proxy record_body record_header abort on_panic set_cb
requests_are_counted_example =
    requests_are_counted env whole items exchange moves (refl, (refl, tt)) 0 1 refl
