-- ===== src/Startup.antt =====
-- src/main.rs: from the command line and the configuration to a server that is ready to run.
pub mod Assembly
pub mod Panics
pub mod Proxied
pub mod Complete
pub mod Phases
pub mod Services
pub mod Unused
pub mod Serving
pub mod Trace
use pingora_guide.Base.{
  ℕ, ◌+◌, ◌/◌, String, Bool, true, false, ◌||◌, Option, none, some, List, [], ◌∷◌, ◌++◌, Outcome,
  ok, err, panic, Act, pure, throw, ◌>>=◌, ◌>>◌, lift, map_err, unwrap_or, string_eq, map,
}
use pingora_guide.Base.Dict
use pingora_guide.Base.Dict.{Dict}
use pingora_guide.Config.{
  GatewayConf, ServerConf, UpstreamConf, ListenerConf, ObservabilityConf, Duration,
}
use pingora_guide.Error.{PingoraGuideError}
use pingora_guide.Pingora.{Pingora}
use pingora_guide.Router
use pingora_guide.Router.{Router}
use pingora_guide.Upstream.{Upstream}
use pingora_guide.Upstreams.Factory.{LbPlan, Service, make_upstream}
use pingora_guide.Middleware.{Middleware}
use pingora_guide.Middlewares.IpRestriction.{ip_restriction}
use pingora_guide.Middlewares.RequestSize
use pingora_guide.Middlewares.RequestSize.{request_size}
use pingora_guide.Middlewares.Metrics.{metrics}
use pingora_guide.Middlewares.Metrics.Registration
use pingora_guide.Middlewares.Metrics.Registration.{Prometheus}
use pingora_guide.Gateway.Chain.{Gateway}

-- `Args`
pub record Args : Type 0 where
  pub config : String
  pub daemon : Bool

module _ (P : Pingora) where
  open P use {Error}

  -- What `main` returns as `Box<dyn Error>`.
  pub data StartError : Type 0 where
    config_error : String → StartError
    server_error : Error → StartError
    router_error : PingoraGuideError Error → StartError

  pub data Listener : Type 0 where
    tcp_listener : String → Listener
    -- address, cert_path, key_path
    tls_listener : String → String → String → Listener

  -- What is added to the server, in the order in which it is added.
  pub data ServerService : Type 0 where
    proxy : Gateway P → List Listener → ServerService
    background : Service P → ServerService
    prometheus : String → ServerService

  -- What is set in the configuration of the server; `none` leaves what the framework has.
  pub record Settings : Type 0 where
    pub pid_file : Option String
    pub threads : Option ℕ
    pub grace_period_seconds : Option ℕ

  pub record Server : Type 0 where
    pub daemon : Bool
    pub settings : Settings
    pub services : List ServerService

  -- The machine and the framework. The answer of `Server::new`, which takes the daemon flag, says if the
  -- server's configuration is unshared, so that `Arc::get_mut` gives it. The registry is the one that
  -- `MetricsMiddleware::new` finds.
  pub record Host : Type 1 where
    pub cpus : ℕ
    pub server_new : ℕ → Bool → Outcome Error Bool
    pub Metrics : Prometheus
    pub registry : ℕ → Metrics.Registry

  abbrev pub Start : Type 0 → Type 0
  Start = Act ℕ StartError

  -- What only `main` calls: the load of the configuration, the host, the check of a listener's
  -- certificate, and the balancer that a background service shares.
  module _ (load : ℕ → String → Outcome String GatewayConf) (host : Host)
      (add_tls : ℕ → String → String → Outcome Error (Unit {0}))
      (task : LbPlan P → P.LoadBalancer) where
    -- The loop over `conf.upstreams`: a later upstream replaces one of the same id.
    unfoldable pub init_upstreams :
        List UpstreamConf
        → Dict String (Upstream P)
        → List (Service P)
        → Start (Dict String (Upstream P) × List (Service P))
    init_upstreams [] upstream_map services = pure (upstream_map, services)
    init_upstreams (u ∷ us) upstream_map services = do
      made ← map_err server_error (make_upstream P task u)
      init_upstreams us (Dict.insert u.id made.0 upstream_map) (services ++ made.1)

    -- The chain of middlewares.
    abbrev pub middlewares_of : ServerConf → List (Middleware P)
    middlewares_of server =
        metrics P ∷ ip_restriction P ∷ request_size P (RequestSize.new server) ∷ []

    unfoldable pub add_listeners : List ListenerConf → List Listener → Start (List Listener)
    add_listeners [] added = pure added
    add_listeners (l ∷ ls) added = elim l.tls [
      | none ↦ add_listeners ls (added ++ (tcp_listener l.address ∷ []))
      | some tls ↦ do
        (λ n. lift server_error (add_tls n tls.cert_path tls.key_path) (n + 1))
        add_listeners ls (added ++ (tls_listener l.address tls.cert_path tls.key_path ∷ []))
    ]

    abbrev pub prometheus_services : Option ObservabilityConf → List ServerService
    prometheus_services none = []
    prometheus_services (some obs) = elim obs.prometheus_addr [
      | none ↦ []
      | some addr ↦ prometheus addr ∷ []
    ]

    abbrev pub seconds : Option Duration → ℕ
    seconds none = 30
    seconds (some d) = d / 1_000_000_000

    -- `if let Some(server_conf) = Arc::get_mut(…)`
    abbrev pub settings_of : ServerConf → Bool → Settings
    settings_of server true = record {
      pid_file = server.pid_file;
      threads = some (unwrap_or host.cpus server.worker_threads);
      grace_period_seconds = some (seconds server.graceful_shutdown_timeout);
    }
    settings_of server false = record {
      pid_file = none;
      threads = none;
      grace_period_seconds = none;
    }

    abbrev pub is_daemon : Args → GatewayConf → Bool
    is_daemon args conf = args.daemon || conf.server.daemon

    -- `Server::new(Some(opt))?`, and the settings.
    abbrev pub open_server : Args → GatewayConf → Start Settings
    open_server args conf = do
      unshared ← λ n. lift server_error (host.server_new n (is_daemon args conf)) (n + 1)
      pure (settings_of conf.server unshared)

    -- `MetricsMiddleware::new()`, which panics where it fails.
    abbrev pub register_metrics : Start (Registration.MetricsMiddleware host.Metrics)
    register_metrics n =
        lift config_error (Registration.new host.Metrics (host.registry n)).0 (n + 1)

    -- From the loop over the upstreams on: the services that are added to the server.
    unfoldable pub services_of : GatewayConf → Start (List ServerService)
    services_of conf = do
      made ← init_upstreams conf.upstreams [] []
      router ← lift router_error (Router.new P conf)
      register_metrics
      let gateway : Gateway P = record {
        conf = conf;
        router = router;
        upstreams = made.0;
        middlewares = middlewares_of conf.server;
      }
      listeners ← add_listeners conf.server.listeners []
      pure (
          (proxy gateway listeners ∷ [])
          ++ (map background made.1 ++ prometheus_services conf.observability))

    -- Everything that `main` does once the configuration is loaded, up to `run_forever`.
    unfoldable pub assemble : Args → GatewayConf → Start Server
    assemble args conf = do
      settings ← open_server args conf
      services ← services_of conf
      pure (record { daemon = is_daemon args conf; settings = settings; services = services })

    unfoldable pub start : Args → Start Server
    start args = do conf ← (λ n. lift config_error (load n args.config) (n + 1)); assemble args conf
