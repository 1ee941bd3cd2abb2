-- ===== src/Startup/Assembly.antt =====
-- src/main.rs: the parts of a server that is assembled.
use pingora_guide.Base.{
  ℕ, ◌≡◌, String, List, [], ◌∷◌, ◌++◌, map, arith, Outcome, ok, inl, inr, made-cases, ok-cases,
}
use pingora_guide.Base.Dict.{Dict}
use pingora_guide.Config.{GatewayConf}
use pingora_guide.Pingora.{Pingora}
use pingora_guide.Router
use pingora_guide.Router.{Router}
use pingora_guide.Upstream.{Upstream}
use pingora_guide.Upstreams.Factory.{LbPlan, Service}
use pingora_guide.Gateway.Chain.{Gateway}
use pingora_guide.Startup.{
  Args, Host, Server, ServerService, proxy, background, Listener, init_upstreams, add_listeners,
  middlewares_of, prometheus_services, open_server, register_metrics, services_of, assemble,
}

module _ (P : Pingora) (load : ℕ → String → Outcome String GatewayConf) (host : Host P)
    (add_tls : ℕ → String → String → Outcome P.Error (Unit {0}))
    (task : LbPlan P → P.LoadBalancer) where
  abbrev pub gateway_of : GatewayConf → Router P → Dict String (Upstream P) → Gateway P
  gateway_of conf router upstreams = record {
    conf = conf;
    router = router;
    upstreams = upstreams;
    middlewares = middlewares_of P load host add_tls task conf.server;
  }

  -- The upstreams with their services, the router and the listeners that the services are made of.
  pub record Parts (conf : GatewayConf) (services : List (ServerService P)) : Type 0 where
    pub made : Dict String (Upstream P) × List (Service P)
    pub before : ℕ
    pub after : ℕ
    pub inited :
        init_upstreams P load host add_tls task conf.upstreams [] [] before ≡ (ok made, after)
    pub router : Router P
    pub routed : Router.new P conf ≡ ok router
    pub listeners : List (Listener P)
    pub same :
        services
        ≡ proxy (gateway_of conf router made.0) listeners
          ∷ (map background made.1
              ++ prometheus_services P load host add_tls task conf.observability)

  services_of-Parts :
      (conf : GatewayConf) (n : ℕ) {services : List (ServerService P)} {n' : ℕ}
      → services_of P load host add_tls task conf n ≡ (ok services, n')
      → Parts conf services
  unfolding services_of
  services_of-Parts conf n built =
      elim (made-cases (init_upstreams P load host add_tls task conf.upstreams [] [] n)) [
        | inr failed ↦ absurd (ground arith)
        | inl ((made, m), inited) ↦ elim (ok-cases (Router.new P conf)) [
          | inr failed ↦ absurd (ground arith)
          | inl (router, routed) ↦ elim (made-cases (register_metrics P load host add_tls task m)) [
            | inr failed ↦ absurd (ground arith)
            | inl ((metrics, m₁), registered) ↦
                elim (made-cases
                  (add_listeners P load host add_tls task conf.server.listeners [] m₁)) [
                    | inr failed ↦ absurd (ground arith)
                    | inl ((listeners, k), listened) ↦ record {
                      made = made;
                      before = n;
                      after = m;
                      inited = inited;
                      router = router;
                      routed = routed;
                      listeners = listeners;
                      same = ground arith;
                    }
                  ]
          ]
        ]
      ]

  -- Where `main` assembles a server, its services have these parts.
  pub assemble-Parts :
      (args : Args) (conf : GatewayConf) (n : ℕ) {server : Server P} {n' : ℕ}
      → assemble P load host add_tls task args conf n ≡ (ok server, n')
      → Parts conf server.services
  unfolding assemble
  assemble-Parts args conf n {server} {n'} built =
      elim (made-cases (open_server P load host add_tls task args conf n)) [
        | inr failed ↦ absurd (ground arith)
        | inl ((settings, m), opened) ↦
            elim (made-cases (services_of P load host add_tls task conf m)) [
              | inr failed ↦ absurd (ground arith)
              | inl ((services, k), served) ↦
                  let same : services ≡ server.services = ground arith in
                  rw same at (services_of-Parts conf m served)
            ]
      ]
