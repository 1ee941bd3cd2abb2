-- ===== src/Startup/Proxied.antt =====
-- src/main.rs and src/gateway.rs: what the upstreams that `main` makes leave in a context, and what
-- a proxied request of the assembled server meets next.
use pingora_guide.Base.{
  string_eq, ℕ, ◌≡◌, refl, ◌∙◌, String, false, none, some, List, [], ◌∷◌, ◌++◌, arith, Outcome, ok,
  panic, Option-cases, inl, inr, made-cases, ok-cases, Bool-cases, ◌==◌,
}
use pingora_guide.Base.Dict
use pingora_guide.Base.Dict.{Dict, lookup, lookup-insert, lookup-nil}
use pingora_guide.Config.{
  RouteConf, UpstreamConf, GatewayConf, LoadBalancerSelection, UpstreamSource, static_source, dns,
  file, uds,
}
use pingora_guide.Pingora.{Pingora}
use pingora_guide.Context
use pingora_guide.Context.{get, RequestMeta, default_meta, any_meta, any_conf}
use pingora_guide.Context.Laws.{get_of_other}
use pingora_guide.Request.{World}
use pingora_guide.Upstream.{Upstream, Peer}
use pingora_guide.Upstreams.StaticUpstream
use pingora_guide.Upstreams.StaticUpstream.Laws.{static_peer-conf}
use pingora_guide.Upstreams.LoadBalancer
use pingora_guide.Upstreams.LoadBalancer.Laws.{select_peer-conf}
use pingora_guide.Upstreams.Factory.{
  LbPlan, Service, make_upstream, make_for, make_lb_instance, plan_lb, finalize_lb, cluster_of,
}
use pingora_guide.Middleware.{continue}
use pingora_guide.Middlewares.Metrics.{metrics}
use pingora_guide.Middlewares.IpRestriction.{ip_restriction}
use pingora_guide.Middlewares.RequestSize.{request_size}
use pingora_guide.Middlewares.RequestSize
use pingora_guide.Gateway.Chain.{Gateway, run_chain}
use pingora_guide.Gateway.Requests.{new_ctx, request_filter}
use pingora_guide.Gateway.Connections.{upstream_peer, upstream_request_filter, no_upstream, peer_of}
use pingora_guide.Gateway.Connections.Laws.{upstream_request_filter_panics}
use pingora_guide.Startup.Assembly.{assemble-Parts}
use pingora_guide.Startup.{
  Host, Args, Server, ServerService, proxy, Listener, init_upstreams, assemble,
}
use pingora_guide.Startup.Panics.{NoConf, crate_chain, request_filter-NoConf}

module _ (P : Pingora) where
  open P use {Error}

  -- What an upstream does to a context without a `RouteConf`.
  abbrev pub KeepsNoConf : Upstream P → Type 0
  KeepsNoConf u = (w : World P) → NoConf P w → NoConf P (u.select_peer w).1

  static-NoConf :
      (u : StaticUpstream.StaticUpstream P) → KeepsNoConf (StaticUpstream.static_upstream P u)
  unfolding StaticUpstream.static_upstream
  static-NoConf u w h = static_peer-conf P u w ∙ h

  cluster-NoConf :
      (u : LoadBalancer.LoadBalancerCluster P) → KeepsNoConf (LoadBalancer.cluster_upstream P u)
  unfolding LoadBalancer.cluster_upstream
  cluster-NoConf u w h = select_peer-conf P u w ∙ h

  -- What all upstreams of a map do.
  abbrev pub AllKeep : Dict String (Upstream P) → Type 0
  AllKeep d = (id : String) (u : Upstream P) → Dict.lookup id d ≡ some u → KeepsNoConf u

  pub upstream_peer-NoConf :
      (g : Gateway P) (w : World P)
      → AllKeep g.upstreams
      → NoConf P w
      → NoConf P (upstream_peer P g w).1
  unfolding upstream_peer peer_of no_upstream
  upstream_peer-NoConf g w keep h = elim (Option-cases (get (RequestMeta P) w.ctx)) [
    | inl missing ↦ ground arith
    | inr (meta, found) ↦ elim (Option-cases meta.upstream_id) [
      | inl unset ↦ ground arith
      | inr (id, set) ↦ elim (Option-cases (Dict.lookup id g.upstreams)) [
        | inl absent ↦ ground arith
        | inr (u, named) ↦ ground (arith, keep id u named w h)
      ]
    ]
  ]

  get-new : get RouteConf (Context.new P) ≡ none
  unfolding get lookup
  get-new = refl

  pub new_ctx-NoConf : (now : ℕ) → get RouteConf (new_ctx P now) ≡ none
  unfolding new_ctx
  new_ctx-NoConf now =
      (get_of_other Error {U = RouteConf} (default_meta P now) (Context.new P) (λ e. cc)).0
      ∙ get-new

  -- None of the three middlewares has a hook on the request to the upstream.
  pub passes :
      (g : Gateway P) (limit : RequestSize.RequestSize) (w : World P) (h : P.Header)
      → g.middlewares ≡ crate_chain P limit
      → run_chain P (λ m. m.handle_upstream_request) g.middlewares (w, h) ≡ (ok continue, (w, h))
  unfolding run_chain metrics ip_restriction request_size
  passes g limit w h chain = ground arith

  module _ (load : ℕ → String → Outcome String GatewayConf) (host : Host P)
      (add_tls : ℕ → String → String → Outcome Error (Unit {0}))
      (task : LbPlan P → P.LoadBalancer) where
    lb_instance-NoConf :
        (selection : LoadBalancerSelection) (conf : UpstreamConf) (n : ℕ)
        {made : Upstream P × List (Service P)} {n' : ℕ}
        → make_lb_instance P task selection conf n ≡ (ok made, n')
        → KeepsNoConf made.0
    unfolding make_lb_instance
    lb_instance-NoConf selection conf n {made} built =
        elim (ok-cases (plan_lb P selection conf.source n).0) [
          | inr failed ↦ absurd (ground arith)
          | inl (lb, planned) ↦
              let c = cluster_of P task (finalize_lb P lb conf).0 conf in
              let same : made.0 ≡ LoadBalancer.cluster_upstream P c = ground arith in
              rw same (cluster-NoConf c)
        ]

    make_for-NoConf :
        (source : UpstreamSource) (conf : UpstreamConf) (n : ℕ)
        {made : Upstream P × List (Service P)} {n' : ℕ}
        → make_for P task source conf n ≡ (ok made, n')
        → KeepsNoConf made.0
    unfolding make_for
    make_for-NoConf (uds path) conf n {made} built =
        let u = StaticUpstream.new_uds P path conf.options in
        let same : made.0 ≡ StaticUpstream.static_upstream P u = ground arith in
        rw same (static-NoConf u)
    make_for-NoConf (static_source backends) conf n built =
        lb_instance-NoConf conf.selection conf n built
    make_for-NoConf (dns hostname refresh) conf n built =
        lb_instance-NoConf conf.selection conf n built
    make_for-NoConf (file path format refresh) conf n built =
        lb_instance-NoConf conf.selection conf n built

    insert-AllKeep :
        (id : String) (u : Upstream P) (d : Dict String (Upstream P))
        → KeepsNoConf u
        → AllKeep d
        → AllKeep (Dict.insert id u d)
    insert-AllKeep id u d kept keep j v found = elim (Bool-cases (id == j)) [
      | inl equal ↦ let same : v ≡ u = ground (arith, lookup-insert j id u d) in rw same kept
      | inr other ↦ keep j v (ground (arith, lookup-insert j id u d))
    ]

    pub init_upstreams-NoConf :
        (us : List UpstreamConf) (d : Dict String (Upstream P)) (services : List (Service P))
        (n : ℕ) {made : Dict String (Upstream P) × List (Service P)} {n' : ℕ}
        → AllKeep d
        → init_upstreams P load host add_tls task us d services n ≡ (ok made, n')
        → AllKeep made.0
    unfolding init_upstreams make_upstream
    init_upstreams-NoConf [] d services n {made} keep built =
        let same : made.0 ≡ d = ground arith in rw same keep
    init_upstreams-NoConf (u ∷ us) d services n {made} {n'} keep built =
        elim (made-cases (make_for P task u.source u n)) [
          | inr failed ↦ absurd (ground arith)
          | inl ((one, m), built_one) ↦
              init_upstreams-NoConf us (Dict.insert u.id one.0 d) (services ++ one.1) m
                {made = made} {n' = n'}
                (insert-AllKeep u.id one.0 d (make_for-NoConf u.source u n built_one) keep)
                (ground arith)
        ]

    empty-AllKeep : AllKeep []
    empty-AllKeep id u found = absurd (ground (arith, lookup-nil {V = Upstream P} id))

    -- A gateway that `assemble` makes has the three middlewares, and each of its upstreams keeps a
    -- context free of `RouteConf`.
    pub assemble_gateway :
        (args : Args) (conf : GatewayConf) (n : ℕ) {server : Server P} {n' : ℕ} {g : Gateway P}
        {ls : List (Listener P)} {others : List (ServerService P)}
        → assemble P load host add_tls task args conf n ≡ (ok server, n')
        → server.services ≡ proxy g ls ∷ others
        → (g.middlewares ≡ crate_chain P (RequestSize.new conf.server)) × AllKeep g.upstreams
    assemble_gateway args conf n {server} {n'} {g} built served =
        let parts = assemble-Parts P load host add_tls task args conf n built in
        let same : g.upstreams ≡ parts.made.0 = ground (arith, parts.same) in
        (
          ground (arith, parts.same),
          rw same (
              init_upstreams-NoConf conf.upstreams [] [] parts.before {made = parts.made}
                {n' = parts.after} empty-AllKeep parts.inited),
        )

    -- Of a server that `main` assembles, a request with a new context that `request_filter` lets
    -- through and that gets a peer always panics in `upstream_request_filter`, for want of a
    -- `RouteConf` in the context.
    pub proxied_request_panics :
        (args : Args) (conf : GatewayConf) (n : ℕ) {server : Server P} {n' : ℕ} {g : Gateway P}
        {ls : List (Listener P)} {others : List (ServerService P)}
        → assemble P load host add_tls task args conf n ≡ (ok server, n')
        → server.services ≡ proxy g ls ∷ others
        → (now : ℕ) (w w₁ w₂ : World P) {peer : Peer P} (h : P.Header) → w.ctx ≡ new_ctx P now
        → request_filter P g w ≡ (ok false, w₁)
        → upstream_peer P g w₁ ≡ (ok peer, w₂)
        → upstream_request_filter P g (w₂, h) ≡ (panic "RouteConf should exist", (w₂, h))
    proxied_request_panics args conf n {g} built served now w w₁ w₂ h fresh passed peered =
        let parts = assemble_gateway args conf n built served in
        let start : NoConf P w = ground (arith, new_ctx-NoConf now) in
        let entered = request_filter-NoConf P g (RequestSize.new conf.server) w parts.0 start in
        let chosen : NoConf P w₂ = ground (arith, upstream_peer-NoConf g w₁ parts.1) in
        upstream_request_filter_panics P g (w₂, h) w₂ h
          (passes g (RequestSize.new conf.server) w₂ h parts.0) chosen
