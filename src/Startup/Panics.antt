-- ===== src/Startup/Panics.antt =====
-- src/main.rs and src/gateway.rs: what `request_filter`, with the three middlewares of `main`, leaves
-- of a `RouteConf` in a context.
use pingora_guide.Base.{◌≡◌, ◌≢◌, ◌∙◌, none, List, [], ◌∷◌, arith}
use pingora_guide.Config.{RouteConf}
use pingora_guide.Error.{PingoraGuideError}
use pingora_guide.Pingora.{Pingora}
use pingora_guide.Context
use pingora_guide.Context.{get, insert, update, RequestMeta, RequestSizeState, default_size_state}
use pingora_guide.Context.{any_meta, any_conf, any_size, any_entry, any_arc_conf}
use pingora_guide.Context.Laws.{get_of_other, get-update}
use pingora_guide.Router.{RouteEntry}
use pingora_guide.Router.{match_request}
use pingora_guide.Gateway.Requests.Laws.{with_ids, with_id, with_entry, routed, set_id, set_route}
use pingora_guide.Request.{World}
use pingora_guide.Middleware.{Middleware}
use pingora_guide.Middlewares.Metrics.{metrics}
use pingora_guide.Middlewares.IpRestriction.{ip_restriction}
use pingora_guide.Middlewares.IpRestriction
use pingora_guide.Middlewares.IpRestriction.Laws.{handle_request_decides}
use pingora_guide.Middlewares.RequestSize
use pingora_guide.Middlewares.RequestSize.{request_size, declared}
use pingora_guide.Gateway.Chain.{Gateway, run_chain}
use pingora_guide.Gateway.Chain.Laws.{run_chain_inv}
use pingora_guide.Gateway.Requests.{enter_route, request_filter, request_host}

-- The three middlewares of `main`, with a limit for the size of a request.
abbrev pub crate_chain : (P : Pingora) → RequestSize.RequestSize → List (Middleware P)
crate_chain P limit = metrics P ∷ ip_restriction P ∷ request_size P limit ∷ []

module _ (P : Pingora) where
  open P use {Error}

  abbrev pub NoConf : World P → Type 0
  NoConf w = get RouteConf w.ctx ≡ none

  ip_restriction-NoConf : (w : World P) → NoConf w → NoConf (IpRestriction.handle_request P w).1
  unfolding IpRestriction.handle_request IpRestriction.reject
  ip_restriction-NoConf w h = rw (handle_request_decides P w) (ground arith)

  request_size-NoConf :
      (limit : RequestSize.RequestSize) (w : World P)
      → NoConf w
      → NoConf (RequestSize.handle_request P limit w).1
  unfolding RequestSize.handle_request RequestSize.reject
  request_size-NoConf limit w h = ground (
    arith,
    (get_of_other (PingoraGuideError Error) {U = RouteConf} default_size_state w.ctx (λ e. cc)).0,
  )

  chain-NoConf :
      (limit : RequestSize.RequestSize) (w : World P)
      → NoConf w
      → NoConf (run_chain P (λ m. m.handle_request) (crate_chain P limit) w).1
  unfolding metrics ip_restriction request_size
  chain-NoConf limit w h =
      run_chain_inv P (λ m. m.handle_request) NoConf (crate_chain P limit)
        ((λ s k. k), (ip_restriction-NoConf, (request_size-NoConf limit, tt))) w h

  set_meta-NoConf :
      (f : RequestMeta P → RequestMeta P) (w : World P)
      → NoConf w
      → get RouteConf (update (RequestMeta P) f w.ctx) ≡ none
  set_meta-NoConf f w h = (get-update (RequestMeta P) RouteConf f w.ctx (λ e. cc)).1 ∙ h

  insert-NoConf :
      {T : Type 0} ⦃a : Context.Any P T⦄ (v : T) (w : World P)
      → a.type_id ≢ Context.TypeId.route_conf
      → NoConf w
      → get RouteConf (insert {E = Error} v w.ctx).1 ≡ none
  insert-NoConf v w other h = (get_of_other Error v w.ctx other).0 ∙ h

  enter_route-NoConf :
      (g : Gateway P) (limit : RequestSize.RequestSize) (route : RouteEntry P) (w : World P)
      → g.middlewares ≡ crate_chain P limit
      → NoConf w
      → NoConf (enter_route P g route w).1
  unfolding enter_route
  enter_route-NoConf g limit route w chain h =
      let ids = set_meta-NoConf (set_route P route) w h in
      let w₁ = record w { ctx = with_ids P route w.ctx } in
      let entered = insert-NoConf route w₁ (λ e. cc) ids in
      let w₂ = record w { ctx = with_entry P route w.ctx } in
      let shared = insert-NoConf route.conf w₂ (λ e. cc) entered in
      let ran = chain-NoConf limit (routed P route w) shared in
      rw chain (ground (arith, entered, shared, ran))

  -- Of all requests, `request_filter` of a gateway with the crate's three middlewares leaves a
  -- context without a `RouteConf`, if there was none, whatever its outcome.
  pub request_filter-NoConf :
      (g : Gateway P) (limit : RequestSize.RequestSize) (w : World P)
      → g.middlewares ≡ crate_chain P limit
      → NoConf w
      → NoConf (request_filter P g w).1
  unfolding request_filter
  request_filter-NoConf g limit w chain h =
      let w₁ = with_id P w in
      let named = set_meta-NoConf (set_id P w.calls) w h in
      let found = match_request P g.router (P.uri_path w.session) (request_host P w.session) in
      grind
        (arith, named, λ (route : RouteEntry P). enter_route-NoConf g limit route w₁ chain named)
