-- ===== src/Config/Server.antt =====
-- src/config.rs: the process, its listeners and the whole configuration.
use pingora_guide.Base.{ℕ, String, Bool, false, Option, none, List, [], Outcome, ok, err, panic}
use pingora_guide.Config.Upstreams.{Duration, UpstreamConf}
use pingora_guide.Config.Routes.{RouteConf}

pub record ObservabilityConf : Type 0 where
  pub prometheus_addr : Option String
  pub otlp_endpoint : Option String

pub record TlsSettings : Type 0 where
  pub cert_path : String
  pub key_path : String
  pub mtls_ca_cert : Option String

pub record ListenerConf : Type 0 where
  pub address : String
  pub tls : Option TlsSettings

pub record ServerConf : Type 0 where
  pub listeners : List ListenerConf
  pub daemon : Bool
  pub pid_file : Option String
  pub user : Option String
  pub group : Option String
  pub worker_threads : Option ℕ
  pub watch_config : Bool
  pub client_max_body_size : Option ℕ
  pub enable_h2 : Bool
  pub enable_h2c : Bool
  pub graceful_shutdown_timeout : Option Duration

-- `ServerConf::default`
abbrev pub default_server : ServerConf
default_server = record {
  listeners = [];
  daemon = false;
  pid_file = none;
  user = none;
  group = none;
  worker_threads = none;
  watch_config = false;
  client_max_body_size = none;
  enable_h2 = false;
  enable_h2c = false;
  graceful_shutdown_timeout = none;
}

pub record GatewayConf : Type 0 where
  pub server : ServerConf
  pub observability : Option ObservabilityConf
  pub upstreams : List UpstreamConf
  pub routes : List RouteConf

-- `GatewayConf::default`
abbrev pub default_gateway : GatewayConf
default_gateway = record {
  server = default_server;
  observability = none;
  upstreams = [];
  routes = [];
}

-- `GatewayConf::load_from_yaml`, over `fs::read_to_string` and `serde_yaml::from_str`.
module _ {E : Type 0} (read_to_string : String → Outcome E String)
    (from_str : String → Outcome E GatewayConf) where
  unfoldable pub load_from_yaml : String → Outcome E GatewayConf
  load_from_yaml path = elim (read_to_string path) [
    | ok content ↦ from_str content
    | err e ↦ err e
    | panic message ↦ panic message
  ]
