-- ===== src/Upstreams/Factory/Health.antt =====
-- src/upstreams/factory.rs: `CommandHealthCheck`, and the health checks that a cluster is given.
use pingora_guide.Base.{
  ℕ, String, Bool, Option, none, some, List, [], Outcome, ok, err, if◌then◌else◌,
}
use pingora_guide.Config.{
  Duration, UpstreamConf, UpstreamSource, static_source, dns, file, uds, HealthCheckConf, tcp, http,
  custom,
}
use pingora_guide.Error.{ErrorType, read_timedout}
use pingora_guide.Pingora.{Pingora, exited, not_run, timed_out}

pub record CommandHealthCheck : Type 0 where
  pub command : String
  pub timeout : Duration
  pub args : List String
  pub failure_threshold : ℕ
  pub success_threshold : ℕ

-- `CommandHealthCheck::new`
abbrev pub new_command_check : String → Duration → List String → ℕ → ℕ → CommandHealthCheck
new_command_check command timeout args failure_threshold success_threshold = record {
  command = command;
  timeout = timeout;
  args = args;
  failure_threshold = failure_threshold;
  success_threshold = success_threshold;
}

-- `health_threshold`
unfoldable pub health_threshold : CommandHealthCheck → Bool → ℕ
health_threshold self success = if success then self.success_threshold else self.failure_threshold

-- `check`, over the outcome of the command; it gets the target in its environment.
unfoldable pub check :
    (P : Pingora) → CommandHealthCheck → ℕ → P.Backend → Outcome P.Error (Unit {0})
check P self call target = elim (P.run_command call self.command self.timeout target) [
  | exited success ↦
      if success
      then ok tt
      else err (P.explain (ErrorType.custom "HealthCheckFailed") "Non-zero exit code")
  | not_run e ↦ err (P.explain (ErrorType.custom "CommandFailed") e)
  | timed_out ↦ err (P.explain read_timedout "Health check timed out")
]

-- A health check with the fields that the code sets on it.
pub data HealthCheck : Type 0 where
  -- connection_timeout, consecutive_success, consecutive_failure
  tcp_check : Duration → ℕ → ℕ → HealthCheck
  -- host, tls, connection_timeout, consecutive_success, consecutive_failure, uri if it is set
  http_check : String → Bool → Duration → ℕ → ℕ → Option String → HealthCheck
  command_check : CommandHealthCheck → HealthCheck

abbrev pub probe_host : UpstreamSource → String
probe_host (dns hostname refresh) = hostname
probe_host (static_source backends) = "localhost"
probe_host (file path format refresh) = "localhost"
probe_host (uds path) = "localhost"

-- The `match hc_conf` of `finalize_lb`.
unfoldable pub make_health_check : Pingora → UpstreamConf → HealthCheckConf → HealthCheck
make_health_check P conf (tcp common) =
    tcp_check common.timeout common.consecutive_success common.consecutive_failure
make_health_check P conf (http common path expected_status) =
    http_check (probe_host conf.source) conf.options.tls common.timeout common.consecutive_success
      common.consecutive_failure (if P.is_uri path then some path else none)
make_health_check P conf (custom common command) = command_check (
    new_command_check command common.timeout [] common.consecutive_failure
      common.consecutive_success)

abbrev pub interval_of : HealthCheckConf → Duration
interval_of (tcp common) = common.interval
interval_of (http common path expected_status) = common.interval
interval_of (custom common command) = common.interval
