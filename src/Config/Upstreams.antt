-- ===== src/Config/Upstreams.antt =====
-- src/config.rs: how an upstream cluster is found, balanced, probed and connected to.
use pingora_guide.Base.{ℕ, ◌*◌, String, Bool, true, false, Option, none, some, List}

-- `Duration`, in nanoseconds
abbrev pub Duration : Type 0
Duration = ℕ

-- `Duration::from_secs`
abbrev pub from_secs : ℕ → Duration
from_secs n = n * 1_000_000_000

abbrev pub default_weight : ℕ
default_weight = 1

pub record BackendConf : Type 0 where
  pub address : String
  pub weight : ℕ

pub data FileFormat : Type 0 where
  json yaml : FileFormat

pub data LoadBalancerSelection : Type 0 where
  round_robin random consistent : LoadBalancerSelection

pub data HashSource : Type 0 where
  no_source client_ip uri : HashSource
  header cookie : String → HashSource

pub record ClusterOptions : Type 0 where
  pub connect_timeout : Duration
  pub read_timeout : Duration
  pub write_timeout : Duration
  pub idle_timeout : Option Duration
  pub enable_h2 : Bool
  pub verify_hostname : Bool
  pub tls : Bool
  pub sni : Option String
  pub connection_pool_size : ℕ

abbrev pub default_timeout : Option Duration
default_timeout = some (from_secs 60)

abbrev pub default_pool_size : ℕ
default_pool_size = 4

-- `ClusterOptions::new`
abbrev pub new_options :
    Duration
    → Duration
    → Duration
    → Option Duration
    → Bool
    → Bool
    → Bool
    → Option String
    → ℕ
    → ClusterOptions
new_options connect read write idle h2 verify tls sni pool = record {
  connect_timeout = connect;
  read_timeout = read;
  write_timeout = write;
  idle_timeout = idle;
  enable_h2 = h2;
  verify_hostname = verify;
  tls = tls;
  sni = sni;
  connection_pool_size = pool;
}

-- `ClusterOptions::default`
abbrev pub default_options : ClusterOptions
default_options =
    new_options (from_secs 5) (from_secs 60) (from_secs 60) (some (from_secs 60)) false true false
      none default_pool_size

pub record HealthCheckCommon : Type 0 where
  pub interval : Duration
  pub timeout : Duration
  pub consecutive_success : ℕ
  pub consecutive_failure : ℕ

abbrev pub default_health_interval : Duration
default_health_interval = from_secs 5

abbrev pub default_health_timeout : Duration
default_health_timeout = from_secs 1

abbrev pub default_health_success : ℕ
default_health_success = 1

abbrev pub default_health_failure : ℕ
default_health_failure = 1

abbrev pub default_status_200 : ℕ
default_status_200 = 200

pub data HealthCheckConf : Type 0 where
  tcp : HealthCheckCommon → HealthCheckConf
  -- common, path, expected_status
  http : HealthCheckCommon → String → ℕ → HealthCheckConf
  -- common, command
  custom : HealthCheckCommon → String → HealthCheckConf

abbrev pub default_refresh : Duration
default_refresh = from_secs 60

pub data UpstreamSource : Type 0 where
  static_source : List BackendConf → UpstreamSource
  -- hostname, refresh_interval
  dns : String → Duration → UpstreamSource
  -- path, format, refresh_interval
  file : String → FileFormat → Duration → UpstreamSource
  uds : String → UpstreamSource

pub record UpstreamConf : Type 0 where
  pub id : String
  pub source : UpstreamSource
  pub selection : LoadBalancerSelection
  pub hash_source : HashSource
  pub options : ClusterOptions
  pub health_check : Option HealthCheckConf
  pub backup_backends : List BackendConf
