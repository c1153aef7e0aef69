-- ===== src/Http.antt =====
-- What the handlers use of net/http, net/http/httputil and patrickmn/go-cache, and CachingRecorder of
-- internal/lb/metrics.go.
use go_load_balancer.Prelude.{
  ℕ, ◌+◌, ◌<◌, ◌≤◌, ◌≡◌, ◌≢◌, Bool, true, false, Option, none, some, List, [], ◌++◌, ◌==◌,
  if◌then◌else◌,
}
use go_load_balancer.Text.{Str, str}

-- An http.ResponseWriter: its header map, as the list of its entries, the status once it is written,
-- and the body so far.
pub record Writer : Type 0 where
  pub headers : List (Str × Str)
  pub status : Option ℕ
  pub body : Str

-- WriteHeader: the first status stands.
abbrev pub first_status : ℕ → Option ℕ → Option ℕ
first_status s none = some s
first_status s (some old) = some old

unfoldable pub write_header : ℕ → Writer → Writer
write_header s w = record w { status = first_status s w.status }

-- Write: a body with no status before it is a 200.
unfoldable pub write_body : Str → Writer → Writer
write_body b w = record w { status = first_status 200 w.status; body = w.body ++ b }

unfoldable pub add_headers : List (Str × Str) → Writer → Writer
add_headers hs w = record w { headers = w.headers ++ hs }

-- The end of a handler: a response with no status is a 200.
unfoldable pub end_response : Writer → Writer
end_response w = record w { status = first_status 200 w.status }

-- http.Error. The headers that it sets are not kept.
unfoldable pub http_error : Str → ℕ → Writer → Writer
http_error message code w = write_body (message ++ str "\n") (write_header code w)

-- CachingRecorder: its Header is that of the writer that it embeds.
pub record CachingRecorder : Type 0 where
  pub writer : Writer
  pub status : ℕ
  pub body : Str
  pub wrote_header : Bool

-- The recorder that the handler makes of its writer.
unfoldable pub new_recorder : Writer → CachingRecorder
new_recorder w = record { writer = w; status = 200; body = []; wrote_header = false }

-- CachingRecorder.WriteHeader and CachingRecorder.Write.
unfoldable pub record_header : ℕ → CachingRecorder → CachingRecorder
record_header s r = record r { status = s; wrote_header = true }

unfoldable pub record_body : Str → CachingRecorder → CachingRecorder
record_body b r = record r { body = r.body ++ b }

-- What the backend answers: a status, headers and a body, or no answer. The headers are those that
-- ReverseProxy copies: it has taken the hop-by-hop headers off.
pub data Answer : Type 0 where
  answered : ℕ → List (Str × Str) → Str → Answer
  unreachable : Answer

-- httputil.ReverseProxy.ServeHTTP on a recorder, with the proxy's ErrorHandler: an answer is copied,
-- its headers first, and its status by WriteHeader. For a 101 it calls the ErrorHandler, since the
-- recorder is no http.Hijacker.
unfoldable pub proxy :
    (CachingRecorder → CachingRecorder) → Answer → CachingRecorder → CachingRecorder
proxy error_handler (answered status headers body) r =
    if status == 101
    then error_handler r
    else record_body body
        (record_header status (record r { writer = add_headers headers r.writer }))
proxy error_handler unreachable r = error_handler r

-- The ErrorHandler of a proxy that has none writes a 502.
unfoldable pub default_error_handler : CachingRecorder → CachingRecorder
default_error_handler r = record_header 502 r

pub record CacheItem : Type 0 where
  pub status : ℕ
  pub headers : List (Str × Str)
  pub body : Str

-- A go-cache with items of a type: at a time, Get of a key, and Set of a key with DefaultExpiration,
-- which is `ttl`, and Flush.
pub record GoCache (V K : Type 0) : Type 0 where
  pub ttl : ℕ
  pub get : ℕ → Str → K → Option V
  pub set : ℕ → Str → V → K → K
  pub flush : K → K

-- What go-cache documents: an item is there until its expiration, keys do not touch one another, and
-- nothing is there after a flush.
pub record IsGoCache {V K : Type 0} (items : GoCache V K) : Type 0 where
  pub hit :
      (t : ℕ) (key : Str) (item : V) (k : K) (t' : ℕ)
      → t ≤ t'
      → t' < t + items.ttl
      → items.get t' key (items.set t key item k) ≡ some item
  pub others :
      (t : ℕ) (key : Str) (item : V) (k : K) (t' : ℕ) (other : Str)
      → other ≢ key
      → items.get t' other (items.set t key item k) ≡ items.get t' other k
  pub flushed : (t : ℕ) (key : Str) (k : K) → items.get t key (items.flush k) ≡ none

-- The cache of responses.
abbrev pub ItemCache : Type 0 → Type 0
ItemCache K = GoCache CacheItem K

abbrev pub IsItemCache : {K : Type 0} → ItemCache K → Type 0
IsItemCache items = IsGoCache items
