-- ===== src/Gateway/Requests/Laws.antt =====
-- src/gateway.rs: what `request_filter` leaves for the later phases, and its refusals.
use pingora_guide.Base.{
  ℕ, ◌+◌, ◌≡◌, refl, ◌≢◌, ◌∙◌, Bool, none, some, arith, Outcome, ok, err, panic,
}
use pingora_guide.Config.{RouteConf}
use pingora_guide.Pingora.{Pingora}
use pingora_guide.Router.{Arc, RouteEntry, match_request}
use pingora_guide.Context.{
  GatewayContext, Any, route_entry, arc_route_conf, get, insert, update, RequestMeta, any_meta,
  any_entry, any_conf, any_arc_conf,
}
use pingora_guide.Context.Laws.{
  IsTyped, insert_replaces, get_of_other, get-update, update-IsTyped, insert-IsTyped,
  get-insert_self,
}
use pingora_guide.Request.{World}
use pingora_guide.Middleware.{MiddlewareDecision, stop}
use pingora_guide.Gateway.Chain.{Gateway, run_chain, is_stop}
use pingora_guide.Gateway.Requests.{request_host, enter_route, request_filter}

module _ (P : Pingora) where
  open P use {Error, Session, uri_path, respond_error, new_uuid}

  abbrev pub set_id : ℕ → RequestMeta P → RequestMeta P
  set_id call meta = record meta { request_id = new_uuid call }

  abbrev pub set_route : RouteEntry P → RequestMeta P → RequestMeta P
  set_route route meta = record meta {
    matched_route_id = some route.conf.inner.path;
    upstream_id = some route.conf.inner.upstream_id;
  }

  -- The world after the id of the request is set.
  abbrev pub with_id : World P → World P
  with_id w = record w { calls = w.calls + 1; ctx = update (RequestMeta P) (set_id w.calls) w.ctx }

  abbrev pub with_ids : RouteEntry P → GatewayContext P → GatewayContext P
  with_ids route c = update (RequestMeta P) (set_route route) c

  abbrev pub with_entry : RouteEntry P → GatewayContext P → GatewayContext P
  with_entry route c = (insert {E = Error} route (with_ids route c)).1

  abbrev pub with_route : RouteEntry P → GatewayContext P → GatewayContext P
  with_route route c = (insert {E = Error} route.conf (with_entry route c)).1

  abbrev pub routed : RouteEntry P → World P → World P
  routed route w = record w { ctx = with_route route w.ctx }

  -- The outcome of the chain, as `request_filter` returns it: `true` if a middleware has stopped.
  abbrev pub answered : Outcome Error MiddlewareDecision × World P → Outcome Error Bool × World P
  answered (ok d, w) = (ok (is_stop d), w)
  answered (err e, w) = (err e, w)
  answered (panic message, w) = (panic message, w)

  enter_route_lem :
      (g : Gateway P) (route : RouteEntry P) (w : World P)
      → IsTyped w.ctx
      → enter_route P g route w
        ≡ answered (run_chain P (λ m. m.handle_request) g.middlewares (routed route w))
  unfolding enter_route
  enter_route_lem g route w typed =
      let typed₁ = update-IsTyped (RequestMeta P) (set_route route) w.ctx typed in
      let (stored, _, typed₂) = insert_replaces Error route (with_ids route w.ctx) typed₁ in
      let (shared, _, _) = insert_replaces Error route.conf (with_entry route w.ctx) typed₂ in
      ground (arith, stored, shared)

  with_id-IsTyped : (w : World P) → IsTyped w.ctx → IsTyped (with_id w).ctx
  with_id-IsTyped w typed = update-IsTyped (RequestMeta P) (set_id w.calls) w.ctx typed

  -- What the middlewares and the later phases find in the context of a routed request.
  pub record IsRouted (route : RouteEntry P) (meta : RequestMeta P) (w w' : World P) : Type 0 where
    pub typed : IsTyped w'.ctx
    pub has_meta :
        get (RequestMeta P) w'.ctx
        ≡ some (record meta {
          request_id = new_uuid w.calls;
          matched_route_id = some route.conf.inner.path;
          upstream_id = some route.conf.inner.upstream_id;
        })
    pub has_entry : get (RouteEntry P) w'.ctx ≡ some route
    pub has_conf : get (Arc RouteConf) w'.ctx ≡ some route.conf
    pub bare_conf : get RouteConf w'.ctx ≡ get RouteConf w.ctx
    pub same_session : w'.session ≡ w.session

  -- What `get` finds of a type that routing does not store.
  module _ {U : Type 0} ⦃b : Any P U⦄ where
    get-with_route :
        (route : RouteEntry P) (c : GatewayContext P)
        → route_entry ≢ b.type_id
        → arc_route_conf ≢ b.type_id
        → get U (with_route route c) ≡ get U (with_ids route c)
    get-with_route route c not_entry not_conf =
        (get_of_other Error route.conf (with_entry route c) not_conf).0
        ∙ (get_of_other Error route (with_ids route c) not_entry).0

  routed-IsRouted :
      (route : RouteEntry P) (meta : RequestMeta P) (w : World P)
      → IsTyped w.ctx
      → get (RequestMeta P) w.ctx ≡ some meta
      → IsRouted route meta w (routed route (with_id w))
  routed-IsRouted route meta w typed found =
      let c = (with_id w).ctx in
      let named = get-update (RequestMeta P) RouteConf (set_id w.calls) w.ctx (λ e. cc) in
      let ids = get-update (RequestMeta P) RouteConf (set_route route) c (λ e. cc) in
      let typed₁ = update-IsTyped (RequestMeta P) (set_route route) c (with_id-IsTyped w typed) in
      let typed₂ = insert-IsTyped Error route (with_ids route c) typed₁ in
      record {
        typed = insert-IsTyped Error route.conf (with_entry route c) typed₂;
        has_meta = get-with_route route c (λ e. cc) (λ e. cc) ∙ ids.0 ∙ rw (named.0, found);
        has_entry =
            (get_of_other Error route.conf (with_entry route c) (λ e. cc)).0
            ∙ get-insert_self Error route (with_ids route c);
        has_conf = get-insert_self Error route.conf (with_entry route c);
        bare_conf = get-with_route route c (λ e. cc) (λ e. cc) ∙ ids.1 ∙ named.1;
        same_session = refl;
      }

  -- A request in a typed context with metadata, for which the router finds a route, goes to the
  -- middlewares in a context that holds the route and the metadata with its ids, and the answer is
  -- theirs; a `RouteConf` is in that context only if it was there before.
  pub request_filter_routes :
      (g : Gateway P) (w : World P) {route : RouteEntry P} {meta : RequestMeta P}
      → IsTyped w.ctx
      → get (RequestMeta P) w.ctx ≡ some meta
      → match_request P g.router (uri_path w.session) (request_host P w.session) ≡ ok (some route)
      → (w' : World P) × (request_filter P g w
          ≡ answered (run_chain P (λ m. m.handle_request) g.middlewares w'))
        × IsRouted route meta w w'
  unfolding request_filter
  request_filter_routes g w {route} {meta} typed found matched = (
    routed route (with_id w),
    ground (arith, enter_route_lem g route (with_id w) (with_id-IsTyped w typed)),
    routed-IsRouted route meta w typed found,
  )

  -- Where no route matches, the client gets a 404 and no middleware is called: `true` is returned
  -- if the answer was sent, and otherwise its error.
  pub request_filter_unmatched :
      (g : Gateway P) (w : World P) {meta : RequestMeta P}
      → get (RequestMeta P) w.ctx ≡ some meta
      → match_request P g.router (uri_path w.session) (request_host P w.session) ≡ ok none
      → let (r, s) = respond_error 404 w.session in
        request_filter P g w
        ≡ answered (
          elim r [ ok _ ↦ ok stop | err e ↦ err e | panic message ↦ panic message ],
          record (with_id w) { session = s },
        )
  unfolding request_filter
  request_filter_unmatched g w found unmatched = ground arith
