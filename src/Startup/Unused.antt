-- ===== src/Startup/Unused.antt =====
-- src/main.rs: the loop over the upstreams, where settings differ that are configured and never used.
use pingora_guide.Base.{
  ℕ, ◌≡◌, refl, String, Option, none, some, List, [], ◌∷◌, map, Outcome, pure, ◌>>=◌, ◌++◌, map_err,
  string_eq,
}
use pingora_guide.Base.Dict
use pingora_guide.Base.Dict.{Dict}
use pingora_guide.Config.{
  UpstreamConf, BackendConf, GatewayConf, UpstreamSource, static_source, dns, file, uds,
  HealthCheckConf, tcp, http, custom,
}
use pingora_guide.Pingora.{Pingora}
use pingora_guide.Upstream.{Upstream}
use pingora_guide.Upstreams.Factory.{
  plan_lb, cluster_of, make_health_check, LbPlan, Service, with_health, finalize_lb,
  make_lb_instance, make_for, make_upstream,
}
use pingora_guide.Upstreams.LoadBalancer
use pingora_guide.Upstreams.StaticUpstream
use pingora_guide.Upstreams.StaticUpstream.{static_upstream, new_uds, make_peer}
use pingora_guide.Upstreams.LoadBalancer.{cluster_upstream}
use pingora_guide.Startup.{Host, server_error, init_upstreams}

-- Values for the settings in question.
pub record Unused : Type 0 where
  pub backup_backends : List BackendConf
  pub connection_pool_size : ℕ
  pub expected_status : ℕ

-- A health check with another `expected_status`, where it has one.
abbrev pub expecting : ℕ → Option HealthCheckConf → Option HealthCheckConf
expecting status none = none
expecting status (some (tcp common)) = some (tcp common)
expecting status (some (http common path old)) = some (http common path status)
expecting status (some (custom common command)) = some (custom common command)

-- An upstream with these values in place of its own.
abbrev pub varied : Unused → UpstreamConf → UpstreamConf
varied x u = record u {
  backup_backends = x.backup_backends;
  options = record u.options { connection_pool_size = x.connection_pool_size };
  health_check = expecting x.expected_status u.health_check;
}

module _ (P : Pingora) where
  open P use {Error}

  with_health-varied :
      (lb : LbPlan P) (u : UpstreamConf) (x : Unused) (hc : Option HealthCheckConf)
      → with_health P lb (varied x u) (expecting x.expected_status hc) ≡ with_health P lb u hc
  unfolding make_health_check
  with_health-varied lb u x none = refl
  with_health-varied lb u x (some (tcp common)) = refl
  with_health-varied lb u x (some (http common path expected_status)) = refl
  with_health-varied lb u x (some (custom common command)) = refl

  finalize_lb-varied :
      (lb : LbPlan P) (u : UpstreamConf) (x : Unused)
      → finalize_lb P lb (varied x u) ≡ finalize_lb P lb u
  unfolding finalize_lb
  finalize_lb-varied lb u x = rw (with_health-varied lb u x u.health_check) refl

  module _ (load : ℕ → String → Outcome String GatewayConf) (host : Host P)
      (add_tls : ℕ → String → String → Outcome Error (Unit {0}))
      (task : LbPlan P → P.LoadBalancer) where
    cluster_of-varied :
        (lb : LbPlan P) (u : UpstreamConf) (x : Unused)
        → cluster_upstream P (cluster_of P task lb (varied x u))
          ≡ cluster_upstream P (cluster_of P task lb u)
    unfolding cluster_upstream LoadBalancer.select_peer LoadBalancer.new
    cluster_of-varied lb u x = refl

    new_uds-varied :
        (path : String) (u : UpstreamConf) (x : Unused)
        → static_upstream P (new_uds P path (varied x u).options)
          ≡ static_upstream P (new_uds P path u.options)
    unfolding static_upstream new_uds StaticUpstream.select_peer make_peer
    new_uds-varied path u x = refl

    make_lb_instance-varied :
        (u : UpstreamConf) (x : Unused)
        → make_lb_instance P task u.selection (varied x u) ≡ make_lb_instance P task u.selection u
    unfolding make_lb_instance
    make_lb_instance-varied u x = λ i. plan_lb P u.selection u.source >>= λ lb.
        let made = finalize_lb-varied lb u x i in pure (cluster_of-varied made.0 u x i, made.1)

    make_for-varied :
        (source : UpstreamSource) (u : UpstreamConf) (x : Unused)
        → make_for P task source (varied x u) ≡ make_for P task source u
    unfolding make_for
    make_for-varied (uds path) u x = λ i. pure (new_uds-varied path u x i, [])
    make_for-varied (static_source backends) u x = make_lb_instance-varied u x
    make_for-varied (dns hostname refresh) u x = make_lb_instance-varied u x
    make_for-varied (file path format refresh) u x = make_lb_instance-varied u x

    make_upstream-varied :
        (u : UpstreamConf) (x : Unused) → make_upstream P task (varied x u) ≡ make_upstream P task u
    unfolding make_upstream
    make_upstream-varied u x = make_for-varied u.source u x

    -- Whatever backup backends, sizes of connection pools and expected statuses of HTTP health checks are
    -- configured, others for each upstream, the loop over the upstreams does the same: the same calls, the
    -- same failures, and the same upstreams, which select the same peers, and background services.
    pub init_upstreams-varied :
        (values : UpstreamConf → Unused) (us : List UpstreamConf) (d : Dict String (Upstream P))
        (services : List (Service P)) (n : ℕ)
        → init_upstreams P load host add_tls task (map (λ u. varied (values u) u) us) d services n
          ≡ init_upstreams P load host add_tls task us d services n
    unfolding init_upstreams
    init_upstreams-varied values [] d services n = refl
    init_upstreams-varied values (u ∷ us) d services n = λ i.
        (map_err server_error (make_upstream-varied u (values u) i) >>= λ made m.
        init_upstreams-varied values us (Dict.insert u.id made.0 d) (services ++ made.1) m i)
          n
