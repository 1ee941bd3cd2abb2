-- ===== src/Startup/Serving.antt =====
-- src/main.rs: the services of the server that is assembled.
use pingora_guide.Base.{
  ℕ, ◌≡◌, refl, sym, ◌∙◌, String, List, [], ◌∷◌, ◌++◌, map, arith, Outcome, ok, inl, inr,
  made-cases, string_eq,
}
use mathlib.Core.List.{append_assoc, append-nil}
use pingora_guide.Base.Dict
use pingora_guide.Base.Dict.{Dict}
use pingora_guide.Base.Text.{◌<>◌}
use pingora_guide.Base.{Option, none, some, Option-cases}
use pingora_guide.Config.{
  UpstreamConf, GatewayConf, ObservabilityConf, UpstreamSource, static_source, dns, file, uds,
}
use pingora_guide.Pingora.{Pingora}
use pingora_guide.Upstream.{Upstream}
use pingora_guide.Upstreams.Factory.{LbPlan, Service, make_upstream, make_for}
use pingora_guide.Upstreams.Factory.Laws.{IsPlanned, make_for-IsBalanced}
use pingora_guide.Gateway.Chain.{Gateway}
use pingora_guide.Startup.Assembly.{assemble-Parts, gateway_of}
use pingora_guide.Startup.{
  Host, Args, Server, ServerService, proxy, background, prometheus, Listener, init_upstreams,
  prometheus_services, assemble,
}

module _ (P : Pingora) where
  open P use {Error}

  -- The background services of one upstream: none for a Unix socket, and otherwise one, which runs a
  -- balancer as it is configured.
  abbrev pub Own : UpstreamSource → UpstreamConf → List (Service P) → Type 0
  Own (uds path) u services = services ≡ []
  Own (static_source backends) u services =
      (lb : LbPlan P) × IsPlanned P u lb
      × (services ≡ record { name = "lb-" <> u.id; lb = lb } ∷ [])
  Own (dns hostname refresh) u services =
      (lb : LbPlan P) × IsPlanned P u lb
      × (services ≡ record { name = "lb-" <> u.id; lb = lb } ∷ [])
  Own (file path format refresh) u services =
      (lb : LbPlan P) × IsPlanned P u lb
      × (services ≡ record { name = "lb-" <> u.id; lb = lb } ∷ [])

  -- Those of a list of upstreams, in its order.
  abbrev pub AllOwn : List UpstreamConf → List (Service P) → Type 0
  AllOwn [] services = services ≡ []
  AllOwn (u ∷ us) services =
      (own : List (Service P)) × (rest : List (Service P)) × Own u.source u own
      × (services ≡ own ++ rest)
      × AllOwn us rest

  -- The last services: an exporter of the metrics at the address that is configured, and none otherwise.
  pub data Exports : Option ObservabilityConf → List (ServerService P) → Type 0 where
    unobserved : Exports none []
    no_address :
        (otlp : Option String)
        → Exports (some (record { prometheus_addr = none; otlp_endpoint = otlp })) []
    exported :
        (addr : String) (otlp : Option String)
        → Exports
            (some (record { prometheus_addr = some addr; otlp_endpoint = otlp }))
            (prometheus addr ∷ [])

  module _ (load : ℕ → String → Outcome String GatewayConf) (host : Host P)
      (add_tls : ℕ → String → String → Outcome Error (Unit {0}))
      (task : LbPlan P → P.LoadBalancer) where
    make_for-Own :
        (source : UpstreamSource) (u : UpstreamConf) (n : ℕ) {made : Upstream P × List (Service P)}
        {n' : ℕ}
        → make_for P task source u n ≡ (ok made, n')
        → Own source u made.1
    unfolding make_for
    make_for-Own (uds path) u n built = ground arith
    make_for-Own (static_source backends) u n built =
        let (lb, planned, _, services) =
          make_for-IsBalanced P task (static_source backends) u n (λ h. h) built in
        (lb, planned, services)
    make_for-Own (dns hostname refresh) u n built =
        let (lb, planned, _, services) =
          make_for-IsBalanced P task (dns hostname refresh) u n (λ h. h) built in
        (lb, planned, services)
    make_for-Own (file path format refresh) u n built =
        let (lb, planned, _, services) =
          make_for-IsBalanced P task (file path format refresh) u n (λ h. h) built in
        (lb, planned, services)

    make_upstream-Own :
        (u : UpstreamConf) (n : ℕ) {made : Upstream P × List (Service P)} {n' : ℕ}
        → make_upstream P task u n ≡ (ok made, n')
        → Own u.source u made.1
    unfolding make_upstream
    make_upstream-Own u n built = make_for-Own u.source u n built

    init_upstreams-AllOwn :
        (us : List UpstreamConf) (d : Dict String (Upstream P)) (services : List (Service P))
        (n : ℕ) {made : Dict String (Upstream P) × List (Service P)} {n' : ℕ}
        → init_upstreams P load host add_tls task us d services n ≡ (ok made, n')
        → (added : List (Service P)) × (made.1 ≡ services ++ added) × AllOwn us added
    unfolding init_upstreams
    init_upstreams-AllOwn [] d services n {made} built =
        let same : made.1 ≡ services = ground arith in ([], same ∙ sym (append-nil services), refl)
    init_upstreams-AllOwn (u ∷ us) d services n {made} {n'} built =
        elim (made-cases (make_upstream P task u n)) [
          | inr failed ↦ absurd (ground arith)
          | inl ((one, m), built_one) ↦
              let (rest, all, owned) =
                init_upstreams-AllOwn us (Dict.insert u.id one.0 d) (services ++ one.1) m
                  {made = made} {n' = n'} (ground arith) in
              (
                one.1 ++ rest,
                all ∙ append_assoc services one.1 rest,
                (one.1, rest, make_upstream-Own u n built_one, refl, owned),
              )
        ]

    prometheus_services-Exports :
        (observability : Option ObservabilityConf)
        → Exports observability (prometheus_services P load host add_tls task observability)
    prometheus_services-Exports none = Exports.unobserved
    prometheus_services-Exports (some obs) = elim (Option-cases obs.prometheus_addr) [
      | inl silent ↦ rw silent (Exports.no_address obs.otlp_endpoint)
      | inr (addr, at) ↦ rw at (Exports.exported addr obs.otlp_endpoint)
    ]

    -- Where `main` assembles a server, its services are the proxy, then, in the order of the configured
    -- upstreams, one background service for each that is no Unix socket, named after it and running a
    -- balancer with its selection, refresh interval and health check, and then the exporter of the
    -- metrics if its address is configured.
    pub assembled_services :
        (args : Args) (conf : GatewayConf) (n : ℕ) {server : Server P} {n' : ℕ}
        → assemble P load host add_tls task args conf n ≡ (ok server, n')
        → (g : Gateway P) × (ls : List (Listener P)) × (services : List (Service P))
          × (exporter : List (ServerService P)) × (server.services
              ≡ proxy g ls ∷ (map background services ++ exporter))
          × AllOwn conf.upstreams services
          × Exports conf.observability exporter
    assembled_services args conf n {server} {n'} built =
        let parts = assemble-Parts P load host add_tls task args conf n built in
        let (added, all, owned) =
          init_upstreams-AllOwn conf.upstreams [] [] parts.before {made = parts.made}
            {n' = parts.after} parts.inited in
        (
          gateway_of P load host add_tls task conf parts.router parts.made.0,
          parts.listeners,
          parts.made.1,
          prometheus_services P load host add_tls task conf.observability,
          parts.same,
          rw all owned,
          prometheus_services-Exports conf.observability,
        )
