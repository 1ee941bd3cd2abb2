-- ===== src/Upstreams/Factory/Make.antt =====
-- src/upstreams/factory.rs: `finalize_lb`, `make_lb_instance` and `make_upstream`.
use pingora_guide.Base.{
  String, Bool, true, false, Option, none, some, List, [], ◌∷◌, pure, throw, ◌>>=◌, unwrap_or,
}
use pingora_guide.Base.Text.{◌<>◌}
use pingora_guide.Config.{
  Duration, UpstreamConf, UpstreamSource, static_source, dns, file, uds, LoadBalancerSelection,
  HealthCheckConf,
}
use pingora_guide.Error.{ErrorType}
use pingora_guide.Pingora.{Pingora}
use pingora_guide.Upstream.{Upstream}
use pingora_guide.Upstreams.StaticUpstream.{new_uds, static_upstream}
use pingora_guide.Upstreams.LoadBalancer
use pingora_guide.Upstreams.LoadBalancer.{LoadBalancerCluster, cluster_upstream}
use pingora_guide.Upstreams.Factory.Discovery.{DnsDiscovery, FileDiscovery, Setup, resolve}
use pingora_guide.Upstreams.Factory.Health.{HealthCheck, make_health_check, interval_of}

module _ (P : Pingora) where
  open P use {Backend, Error, explain}

  pub data Discovery : Type 0 where
    static_discovery : List Backend → Discovery
    dns_discovery : DnsDiscovery → Discovery
    file_discovery : FileDiscovery → Discovery

  -- A `LoadBalancer<S>` under construction: `S`, and the fields that the code sets.
  pub record LbPlan : Type 0 where
    pub selection : LoadBalancerSelection
    pub discovery : Discovery
    pub update_frequency : Option Duration
    pub health_check : Option HealthCheck
    pub health_check_frequency : Option Duration
    pub parallel_health_check : Bool

  -- A background service: its name and the balancer that it runs.
  pub record Service : Type 0 where
    pub name : String
    pub lb : LbPlan

  abbrev pub from_backends : LoadBalancerSelection → Discovery → Option Duration → LbPlan
  from_backends selection discovery update_frequency = record {
    selection = selection;
    discovery = discovery;
    update_frequency = update_frequency;
    health_check = none;
    health_check_frequency = none;
    parallel_health_check = false;
  }

  abbrev pub with_health : LbPlan → UpstreamConf → Option HealthCheckConf → LbPlan
  with_health lb conf none = lb
  with_health lb conf (some hc) = record lb {
    health_check = some (make_health_check P conf hc);
    health_check_frequency = some (interval_of hc);
  }

  -- `finalize_lb`; the shared balancer is the one that the service runs.
  unfoldable pub finalize_lb : LbPlan → UpstreamConf → LbPlan × List Service
  finalize_lb lb conf =
      let lb' = record (with_health lb conf conf.health_check) { parallel_health_check = true } in
      (lb', record { name = "lb-" <> conf.id; lb = lb' } ∷ [])

  -- The `match &conf.source` of `make_lb_instance`.
  unfoldable pub plan_lb : LoadBalancerSelection → UpstreamSource → Setup P LbPlan
  plan_lb selection (static_source backends) = do
    upstreams ← resolve P backends []
    pure (from_backends selection (static_discovery upstreams) none)
  plan_lb selection (dns hostname refresh_interval) = pure (
      from_backends selection (dns_discovery (record { hostname = hostname }))
        (some refresh_interval))
  plan_lb selection (file path format refresh_interval) = pure (
      from_backends selection (file_discovery (record { path = path; format = format }))
        (some refresh_interval))
  plan_lb selection (uds path) = throw (
      explain (ErrorType.custom "InvalidConfiguration")
        "Unix Domain Sockets cannot be used with Load Balancer Selection algorithms.")

  -- `task` is the balancer that `background_service(…).task()` shares.
  module _ (task : LbPlan → P.LoadBalancer) where
    abbrev pub cluster_of : LbPlan → UpstreamConf → LoadBalancerCluster P
    cluster_of lb conf =
        LoadBalancer.new P (task lb) conf.options.tls (unwrap_or "" conf.options.sni) none
          (some conf.options) (some conf.hash_source)

    unfoldable pub make_lb_instance :
        LoadBalancerSelection → UpstreamConf → Setup P (Upstream P × List Service)
    make_lb_instance selection conf = do
      lb ← plan_lb selection conf.source
      let made = finalize_lb lb conf
      pure (cluster_upstream P (cluster_of made.0 conf), made.1)

    -- `make_upstream`: a Unix socket first, and then `match conf.selection`.
    unfoldable pub make_for : UpstreamSource → UpstreamConf → Setup P (Upstream P × List Service)
    make_for (uds path) conf = pure (static_upstream P (new_uds P path conf.options), [])
    make_for (static_source backends) conf = make_lb_instance conf.selection conf
    make_for (dns hostname refresh) conf = make_lb_instance conf.selection conf
    make_for (file path format refresh) conf = make_lb_instance conf.selection conf

    unfoldable pub make_upstream : UpstreamConf → Setup P (Upstream P × List Service)
    make_upstream conf = make_for conf.source conf
