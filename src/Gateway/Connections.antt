-- ===== src/Gateway/Connections.antt =====
-- src/gateway.rs: `upstream_peer`, `upstream_request_filter`, `connected_to_upstream`.
pub mod Laws
use pingora_guide.Base.{
  ℕ, String, Bool, true, false, not, Option, none, some, List, [], ◌∷◌, Outcome, ok, err, panic,
  Act, pure, throw, expect, gets, ◌>>=◌, ◌>>◌, map_err, string_eq,
}
use pingora_guide.Base.Dict
use pingora_guide.Base.Dict.{Dict}
use pingora_guide.Config.{RouteConf, HeaderConf}
use pingora_guide.Error.{custom}
use pingora_guide.Pingora.{Pingora}
use pingora_guide.Context.{get, RequestMeta, any_meta, any_conf}
use pingora_guide.Request.{World, ProxyHandler, into_error, on_session}
use pingora_guide.Upstream.{Peer}
use pingora_guide.Gateway.Chain.{Gateway, run_chain, rejected}

module _ (P : Pingora) where
  open P use {Error, Header, Digest, explain, respond_error, insert_header, remove_header}

  -- A 500 for the client and an error for pingora.
  unfoldable pub no_upstream : {A : Type 0} → String → ProxyHandler P A
  no_upstream message = do
    on_session P (respond_error 500)
    throw (explain (custom "UpstreamError") message)

  unfoldable pub peer_of : Gateway P → Option String → ProxyHandler P (Peer P)
  peer_of g none = no_upstream "Upstream id not set"
  peer_of g (some id) = elim (Dict.lookup id g.upstreams) [
    | some upstream ↦ map_err (into_error P) upstream.select_peer
    | none ↦ no_upstream "Upstream config not found"
  ]

  unfoldable pub upstream_peer : Gateway P → ProxyHandler P (Peer P)
  upstream_peer g = do
    c ← gets (λ w. w.ctx)
    meta ← expect (get (RequestMeta P) c) "RequestMeta should exist"
    peer_of g meta.upstream_id

  -- A handler that edits a header beside the request's state.
  abbrev pub HeaderEditor : Type 0
  HeaderEditor = Act (World P × Header) Error (Unit {0})

  unfoldable pub insert_headers : Dict String String → HeaderEditor
  insert_headers [] = pure tt
  insert_headers ((key, value) ∷ rest) = do
    λ (w, h). let (r, h') = insert_header key value h in (r, (w, h'))
    insert_headers rest

  unfoldable pub remove_headers : List String → Header → Header
  remove_headers [] h = h
  remove_headers (key ∷ keys) h = remove_headers keys (remove_header key h)

  -- `Host` becomes the SNI of the peer, unless the route preserves it.
  unfoldable pub set_host : Bool → Option String → HeaderEditor
  set_host true sni s = (ok tt, s)
  set_host false none s = (ok tt, s)
  set_host false (some sni) (w, h) = let (r, h') = insert_header "Host" sni h in (r, (w, h'))

  unfoldable pub edit_request : HeaderConf → Option String → HeaderEditor
  edit_request headers sni = do
    insert_headers headers.add_req_headers
    λ (w, h). (ok tt, (w, remove_headers headers.remove_req_headers h))
    set_host headers.preserve_host_header sni

  unfoldable pub upstream_request_filter : Gateway P → HeaderEditor
  upstream_request_filter g = do
    d ← run_chain P (λ m. m.handle_upstream_request) g.middlewares
    rejected P "Upstream Request Rejected" d
    c ← gets (λ s. s.0.ctx)
    route ← expect (get RouteConf c) "RouteConf should exist"
    meta ← expect (get (RequestMeta P) c) "RequestMeta should exist"
    edit_request route.headers meta.sni

  unfoldable pub connected_to_upstream :
      Gateway P → Bool → Peer P → ℕ → Option Digest → ProxyHandler P (Unit {0})
  unfolding rejected
  connected_to_upstream g reused peer fd digest = do
    d ← run_chain P (λ m. m.handle_upstream_connected reused peer fd digest) g.middlewares
    rejected P "Upstream Connection Aborted" d
