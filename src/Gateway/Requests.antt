-- ===== src/Gateway/Requests.antt =====
-- src/gateway.rs: `new_ctx`, `early_request_filter`, `request_filter`, `request_body_filter`.
pub mod Laws
use pingora_guide.Base.{
  ℕ, String, Bool, true, Option, none, some, Outcome, ok, err, panic, Act, pure, throw, expect,
  gets, ◌>>=◌, ◌>>◌,
}
use pingora_guide.Pingora.{Pingora}
use pingora_guide.Router.{RouteEntry, match_request}
use pingora_guide.Context
use pingora_guide.Context.{
  GatewayContext, get, update, RequestMeta, default_meta, any_meta, any_entry, any_arc_conf,
}
use pingora_guide.Request.{World, ProxyHandler, on_session, on_ctx, update_ctx, draw}
use pingora_guide.Gateway.Chain.{Gateway, run_chain, rejected, is_stop}

module _ (P : Pingora) where
  open P use {Error, Session, Bytes, HeaderValue, uri_path, uri_host, header, to_str, respond_error}

  -- `new_ctx`, at an instant; `insert` into an empty context returns `None`.
  unfoldable pub new_ctx : ℕ → GatewayContext P
  new_ctx now = (Context.insert {E = Error} (default_meta P now) (Context.new P)).1

  -- The `Host` header, or else the host of the request line.
  unfoldable pub request_host : Session → Option String
  request_host s =
      let from_header : Option String = elim (header s "Host") [
        | none ↦ none
        | some v ↦ to_str v
      ] in
      elim from_header [ some h ↦ some h | none ↦ uri_host s ]

  -- `request_filter` once a route is found.
  unfoldable pub enter_route : Gateway P → RouteEntry P → ProxyHandler P Bool
  enter_route g route = do
    update_ctx P (
        update (RequestMeta P) (λ meta. record meta {
          matched_route_id = some route.conf.inner.path;
          upstream_id = some route.conf.inner.upstream_id;
        }))
    on_ctx P (Context.insert route)
    on_ctx P (Context.insert route.conf)
    d ← run_chain P (λ m. m.handle_request) g.middlewares
    pure (is_stop d)

  unfoldable pub request_filter : Gateway P → ProxyHandler P Bool
  request_filter g = do
    call ← draw P
    c ← gets (λ w. w.ctx)
    expect (get (RequestMeta P) c) "Context should already be created"
    update_ctx P (update (RequestMeta P) (λ meta. record meta { request_id = P.new_uuid call }))
    s ← gets (λ w. w.session)
    route_match ← (λ w. (match_request P g.router (uri_path s) (request_host s), w))
    elim route_match [
      | some route ↦ enter_route g route
      | none ↦ do on_session P (respond_error 404); pure true
    ]

  -- `break` on a `Stop`, and `Ok(())` all the same.
  unfoldable pub early_request_filter : Gateway P → ProxyHandler P (Unit {0})
  early_request_filter g = do run_chain P (λ m. m.handle_early_request) g.middlewares; pure tt

  unfoldable pub request_body_filter :
      Gateway P → Bool → Act (World P × Option Bytes) Error (Unit {0})
  request_body_filter g end_of_stream = do
    d ← run_chain P (λ m. m.handle_request_body end_of_stream) g.middlewares
    rejected P "Body Rejected" d
