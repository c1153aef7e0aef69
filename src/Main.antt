-- ===== src/Main.antt =====
-- cmd/lb/main.go: what the program starts for its listeners, and what SIGHUP makes of it. The
-- sockets, the names and numbers of crypto/tls's cipher suites and what LoadConfig
-- answers are parameters.
pub mod Reloads
pub mod Shutdown
mod Examples
use go_load_balancer.Prelude.{
  ◌⊎◌, inl, inr, length, ℕ, Bool, true, false, ◌&&◌, ◌||◌, Option, none, some, List, [], ◌∷◌, ◌++◌,
  if◌then◌else◌,
}
use go_load_balancer.Text.{Str, str, eqs}
use go_load_balancer.Config.{
  Config, ListenerConfig, TlsConfig, AutocertConfig, LoadError, LoadedConfig, Loader, load_config,
}
use go_load_balancer.Extern.{Env}
use go_load_balancer.Balancer.{
  LoadBalancer, Sort, is_l7, listeners, allocate, reload_config, new_load_balancer,
}
use go_load_balancer.Http.{GoCache}
use go_load_balancer.Tcp.{TcpProxy, new_tcp_proxy}
use go_load_balancer.Udp.{UdpProxy, new_udp_proxy}

-- crypto/tls's constants VersionTLS10 to VersionTLS13.
pub data TlsVersion : Type 0 where
  version_tls10 version_tls11 version_tls12 version_tls13 : TlsVersion

unfoldable pub get_tls_version : Str → TlsVersion
get_tls_version version =
    if eqs version (str "tls1.0")
    then version_tls10
    else if eqs version (str "tls1.1")
    then version_tls11
    else if eqs version (str "tls1.2")
    then version_tls12
    else if eqs version (str "tls1.3")
    then version_tls13
    else version_tls12

-- suiteMap: the secure suites are written first, and a later entry of a name replaces an earlier.
unfoldable pub find_suite : Str → List (Str × ℕ) → Option ℕ
find_suite name [] = none
find_suite name ((n, id) ∷ suites) = elim (find_suite name suites) [
  | some later ↦ some later
  | none ↦ if eqs n name then some id else none
]

unfoldable pub get_cipher_suites : List (Str × ℕ) → List (Str × ℕ) → List Str → List ℕ
unfolding find_suite
get_cipher_suites secure insecure [] = []
get_cipher_suites secure insecure (name ∷ names) =
    let rest = get_cipher_suites secure insecure names in
    elim (find_suite name (secure ++ insecure)) [ none ↦ rest | some id ↦ id ∷ rest ]

-- A tls.Config: an autocert manager's, or one with a least version and the suites of the files.
pub data TlsSettings : Type 0 where
  autocert_manager : AutocertConfig → TlsSettings
  static_files : TlsVersion → List ℕ → TlsSettings

-- How a server is run: ListenAndServe, or ListenAndServeTLS with two files.
pub data Serving : Type 0 where
  listen_and_serve : Serving
  listen_and_serve_tls : Str → Str → Serving

pub record HttpServer : Type 0 where
  pub addr : Str
  pub tls_config : Option TlsSettings
  pub serving : Serving

unfoldable pub enabled_autocert : Option AutocertConfig → Option AutocertConfig
enabled_autocert none = none
enabled_autocert (some a) = if a.enabled then some a else none

module _ (secure insecure : List (Str × ℕ)) where
  unfoldable pub tls_settings : Option AutocertConfig → Option TlsConfig → Option TlsSettings
  tls_settings (some a) tls = some (autocert_manager a)
  tls_settings none none = none
  tls_settings none (some c) = some (
      static_files (get_tls_version c.min_version)
        (get_cipher_suites secure insecure c.cipher_suites))

  -- The files of a server with a tls.Config; the autocert manager has none.
  unfoldable pub key_files : Option AutocertConfig → Option TlsConfig → Serving
  key_files (some a) tls = listen_and_serve_tls [] []
  key_files none none = listen_and_serve
  key_files none (some c) = listen_and_serve_tls c.cert_file c.key_file

  unfoldable pub serving_of : ListenerConfig → Serving
  unfolding key_files
  serving_of l =
      if eqs l.protocol (str "https")
      then key_files (enabled_autocert l.autocert) l.tls
      else listen_and_serve

  -- The server of the HTTP-01 challenges.
  unfoldable pub challenge_server : Option AutocertConfig → List HttpServer
  challenge_server none = []
  challenge_server (some a) =
      record { addr = str ":80"; tls_config = none; serving = listen_and_serve } ∷ []

  -- startHttpListener: its server, and that of the challenges.
  unfoldable pub start_http_listener : ListenerConfig → List HttpServer
  unfolding serving_of challenge_server
  start_http_listener l =
      record {
        addr = l.listen_addr;
        tls_config = tls_settings (enabled_autocert l.autocert) l.tls;
        serving = serving_of l;
      }
      ∷ challenge_server (enabled_autocert l.autocert)

-- What main keeps: the load balancer, and the servers and proxies that it has started.
pub record Program (Cb K : Type 0) : Type 0 where
  pub balancer : LoadBalancer Cb
  pub http_servers : List HttpServer
  pub tcp_proxies : List (TcpProxy Cb)
  pub udp_proxies : List (UdpProxy Cb K)

-- What LoadConfig answers.
abbrev pub Loaded : Type 0
Loaded = LoadError ⊎ LoadedConfig

unfoldable pub of_option {ℓ} : {A : Type ℓ} → Option A → List A
of_option none = []
of_option (some a) = a ∷ []

-- The sockets that can be opened, and a UDP proxy's new cache.
pub record Sockets (K : Type 0) : Type 0 where
  pub listens_tcp : Str → Bool
  pub resolves_udp : Str → Bool
  pub listens_udp : Str → Bool
  pub new_sessions : K

module _ {Cb K : Type 0} (env : Env Cb) (sort : Sort Cb) (sessions : GoCache ℕ K)
    (secure insecure : List (Str × ℕ)) (sockets : Sockets K) where
  -- A turn of the loop over the listeners.
  unfoldable pub start_listener : ListenerConfig → Program Cb K → Program Cb K
  unfolding of_option
  start_listener l p =
      if is_l7 l
      then record p { http_servers = p.http_servers ++ start_http_listener secure insecure l }
      else if eqs l.protocol (str "tcp")
      then record p {
        tcp_proxies = p.tcp_proxies ++ of_option (new_tcp_proxy sockets.listens_tcp l p.balancer);
      }
      else if eqs l.protocol (str "udp")
      then record p {
        udp_proxies =
            p.udp_proxies
            ++ of_option (
                new_udp_proxy sessions sockets.resolves_udp sockets.listens_udp sockets.new_sessions
                  l p.balancer);
      }
      else p

  unfoldable pub start_listeners : List ListenerConfig → Program Cb K → Program Cb K
  start_listeners [] p = p
  start_listeners (l ∷ ls) p = start_listeners ls (start_listener l p)

  -- main up to its signals.
  unfoldable pub start_program : List ListenerConfig → Config → Program Cb K
  start_program heap cfg = start_listeners (listeners heap cfg.listeners) (record {
    balancer = new_load_balancer env sort heap cfg;
    http_servers = [];
    tcp_proxies = [];
    udp_proxies = [];
  })

  unfoldable pub on_sighup : Loaded → Program Cb K → Program Cb K
  on_sighup (inl error) p = p
  on_sighup (inr (ls, cfg)) p = record p {
    balancer = reload_config env sort cfg (allocate ls p.balancer);
  }

  -- The branch of SIGHUP: the configuration is loaded behind the listeners of the heap.
  unfoldable pub reload_from : {File : Type 0} → Loader File → Str → Program Cb K → Program Cb K
  reload_from loader path p = on_sighup (load_config loader (length p.balancer.heap) path) p

  -- The loop over the signals, as long as they are SIGHUP.
  unfoldable pub on_sighups : List Loaded → Program Cb K → Program Cb K
  on_sighups [] p = p
  on_sighups (l ∷ ls) p = on_sighups ls (on_sighup l p)
