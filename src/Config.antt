-- ===== src/Config.antt =====
-- internal/lb/config.go: the configuration as it stands after loading, and LoadConfig over what the
-- file system and the YAML and environment libraries answer. A duration is its number of
-- nanoseconds, and a float64 is its bit pattern, which only the operations of `Extern` read.
use go_load_balancer.Prelude.{ℕ, Bool, List, [], Option, none, some, ◌⊎◌, inl, inr}
use go_load_balancer.Prelude.Int.{ℤ, pos}
use go_load_balancer.Text.{Str}

abbrev pub Float64 : Type 0
Float64 = ℕ

abbrev pub Duration : Type 0
Duration = ℤ

pub record RedisConfig : Type 0 where
  pub addr : Str
  pub password : Str
  pub db : ℤ

pub record TlsConfig : Type 0 where
  pub cert_file : Str
  pub key_file : Str
  pub min_version : Str
  pub cipher_suites : List Str

pub record AutocertConfig : Type 0 where
  pub enabled : Bool
  pub email : Str
  pub domains : List Str
  pub cache_dir : Str

pub record RateLimitConfig : Type 0 where
  pub enabled : Bool
  pub requests_per_second : Float64
  pub burst : ℤ

pub record CircuitBreakerConfig : Type 0 where
  pub enabled : Bool
  pub consecutive_failures : ℕ
  pub open_state_timeout : Duration

pub record ConnectionPoolConfig : Type 0 where
  pub max_idle_conns : ℤ
  pub max_idle_conns_per_host : ℤ
  pub idle_conn_timeout : Duration

pub record CacheConfig : Type 0 where
  pub enabled : Bool
  pub default_expiration : Duration
  pub cleanup_interval : Duration

pub record BackendConfig : Type 0 where
  pub addr : Str
  pub weight : ℤ

-- `headers` lists the entries of the map, one for each key. No backend is nil: the code panics on a
-- null entry where it builds the pool of the route.
pub record RouteConfig : Type 0 where
  pub host : Str
  pub path : Str
  pub headers : List (Str × Str)
  pub strategy : Str
  pub backends : List BackendConfig

pub record ListenerConfig : Type 0 where
  pub name : Str
  pub protocol : Str
  pub listen_addr : Str
  pub tls : Option TlsConfig
  pub autocert : Option AutocertConfig
  pub rate_limit : Option RateLimitConfig
  pub cache : Option CacheConfig
  pub routes : List RouteConfig
  pub strategy : Str
  pub backends : List BackendConfig

-- A `*ListenerConfig` is the position of the listener in the heap of `Balancer`: the admin handlers
-- write through such a pointer.
abbrev pub ListenerRef : Type 0
ListenerRef = ℕ

pub record Config : Type 0 where
  pub listeners : List ListenerRef
  pub metrics_addr : Str
  pub admin_addr : Str
  pub admin_token : Str
  pub circuit_breaker : Option CircuitBreakerConfig
  pub connection_pool : Option ConnectionPoolConfig
  pub redis : Option RedisConfig

-- Where LoadConfig can fail: at os.Open, at the decoder, and at env.Parse.
pub data LoadError : Type 0 where
  open_failed decode_failed parse_failed : LoadError

-- A configuration with the listeners that the decoder allocates.
abbrev pub LoadedConfig : Type 0
LoadedConfig = List ListenerConfig × Config

-- os.Open, the YAML decoder and env.Parse. The decoder and env.Parse see the listeners too; the
-- number is the position of the first.
pub record Loader (File : Type 0) : Type 0 where
  pub open_file : Str → Option File
  pub decode : ℕ → File → Option LoadedConfig
  pub parse_env : LoadedConfig → Option LoadedConfig

unfoldable pub with_redis : LoadedConfig → LoadedConfig
with_redis (ls, cfg) = elim cfg.redis [
  | none ↦ (ls, record cfg { redis = some (record { addr = []; password = []; db = pos 0 }) })
  | some r ↦ (ls, cfg)
]

module _ {File : Type 0} (loader : Loader File) where
  unfoldable pub on_parsed : Option LoadedConfig → LoadError ⊎ LoadedConfig
  on_parsed none = inl parse_failed
  on_parsed (some c) = inr c

  unfoldable pub on_decoded : Option LoadedConfig → LoadError ⊎ LoadedConfig
  on_decoded none = inl decode_failed
  on_decoded (some c) = on_parsed (loader.parse_env (with_redis c))

  unfoldable pub on_file : ℕ → Option File → LoadError ⊎ LoadedConfig
  on_file base none = inl open_failed
  on_file base (some file) = on_decoded (loader.decode base file)

  unfoldable pub load_config : ℕ → Str → LoadError ⊎ LoadedConfig
  load_config base path = on_file base (loader.open_file path)
