-- ===== src/Gateway/Responses.antt =====
-- src/gateway.rs: `upstream_response_filter`, `response_filter`, `response_body_filter`, `logging`.
-- These loops run over the middlewares in reverse.
pub mod Laws
use pingora_guide.Base.{
  Bool, Option, none, Outcome, ok, err, panic, Act, pure, expect, gets, ◌>>=◌, ◌>>◌, reverse,
}
use pingora_guide.Config.{RouteConf, Duration}
use pingora_guide.Pingora.{Pingora}
use pingora_guide.Context.{get, any_conf}
use pingora_guide.Request.{World, ProxyHandler}
use pingora_guide.Gateway.Chain.{Gateway, run_chain, run_lenient, rejected}
use pingora_guide.Gateway.Connections.{HeaderEditor, insert_headers, remove_headers}

module _ (P : Pingora) where
  open P use {Error, Bytes}

  unfoldable pub upstream_response_filter : Gateway P → HeaderEditor P
  upstream_response_filter g = do
    d ← run_chain P (λ m. m.handle_upstream_response) (reverse g.middlewares)
    rejected P "Upstream Response Filter Aborted" d
    c ← gets (λ s. s.0.ctx)
    route ← expect (get RouteConf c) "RouteConf should exist"
    λ (w, h). (ok tt, (w, remove_headers P route.headers.remove_resp_headers h))

  unfoldable pub response_filter : Gateway P → HeaderEditor P
  response_filter g = do
    d ← run_chain P (λ m. m.handle_response) (reverse g.middlewares)
    rejected P "Response Filter Aborted" d
    c ← gets (λ s. s.0.ctx)
    route ← expect (get RouteConf c) "RouteConf should exist"
    insert_headers P route.headers.add_resp_headers

  unfoldable pub response_body_filter :
      Gateway P → Bool → Act (World P × Option Bytes) Error (Option Duration)
  response_body_filter g end_of_stream = do
    d ← run_chain P (λ m. m.handle_response_body end_of_stream) (reverse g.middlewares)
    rejected P "Response Body Rejected" d
    pure none

  unfoldable pub logging : Gateway P → Option Error → ProxyHandler P (Unit {0})
  logging g e = do run_lenient P (λ m. m.handle_logging e) (reverse g.middlewares); pure tt
