-- ===== src/Gateway/Responses/Laws.antt =====
-- src/gateway.rs: the order of the response phases, and their edits.
use mathlib.Core.List.{reverse-append, append_assoc}
use pingora_guide.Base.{
  ◌≡◌, ◌∙◌, String, Bool, Option, none, some, List, [], ◌∷◌, ◌++◌, reverse, arith, ok, err, panic,
  if◌then◌else◌,
}
use pingora_guide.Config.{RouteConf}
use pingora_guide.Error.{custom}
use pingora_guide.Pingora.{Pingora}
use pingora_guide.Context.{get, any_conf}
use pingora_guide.Request.{World}
use pingora_guide.Middleware.{Middleware, continue, stop}
use pingora_guide.Gateway.Chain.{Gateway, run_chain, rejected}
use pingora_guide.Gateway.Chain.Laws.{Passes, run_chain_halts}
use pingora_guide.Gateway.Connections.{remove_headers}
use pingora_guide.Gateway.Connections.Laws.{
  HeaderLaws, after_inserts, is_removed, insert_headers-value, remove_headers-value,
}
use pingora_guide.Gateway.Requests.{request_body_filter}
use pingora_guide.Gateway.Responses.{
  upstream_response_filter, response_filter, response_body_filter,
}

reverse_around :
    {A : Type 0} (before after : List A) (m : A)
    → reverse (before ++ (m ∷ after)) ≡ reverse after ++ (m ∷ reverse before)
reverse_around before after m =
    reverse-append before (m ∷ after)
    ∙ rw (reverse-append (m ∷ []) after) (append_assoc (reverse after) (m ∷ []) (reverse before))

module _ (P : Pingora) where
  open P use {Bytes, Header}

  -- A body chunk of a request passes the middlewares in order: where those before one continue and
  -- that one stops, the request is rejected and the ones behind it are not called.
  pub request_body_filter_stops :
      (g : Gateway P) (before after : List (Middleware P)) (m : Middleware P) (last : Bool)
      {s t u : World P × Option Bytes}
      → g.middlewares ≡ before ++ (m ∷ after)
      → Passes P (λ m. m.handle_request_body last) before s t
      → m.handle_request_body last t ≡ (ok stop, u)
      → request_body_filter P g last s
        ≡ (err (P.explain (custom "MiddlewareRejected") "Body Rejected"), u)
  unfolding request_body_filter rejected
  request_body_filter_stops g before after m last {s} {t} order passed stopped =
      rw order (ground (arith, run_chain_halts P (λ m. m.handle_request_body last) m after passed))

  -- A body chunk of a response passes them in reverse: where those behind one continue and that one
  -- stops, the response is rejected and the ones before it are not called.
  pub response_body_filter_stops :
      (g : Gateway P) (before after : List (Middleware P)) (m : Middleware P) (last : Bool)
      {s t u : World P × Option Bytes}
      → g.middlewares ≡ before ++ (m ∷ after)
      → Passes P (λ m. m.handle_response_body last) (reverse after) s t
      → m.handle_response_body last t ≡ (ok stop, u)
      → response_body_filter P g last s
        ≡ (err (P.explain (custom "MiddlewareRejected") "Response Body Rejected"), u)
  unfolding response_body_filter rejected
  response_body_filter_stops g before after m last {s} {t} order passed stopped =
      rw (order, reverse_around before after m)
        (ground
          (arith, run_chain_halts P (λ m. m.handle_response_body last) m (reverse before) passed))

  -- Without a `RouteConf` in the context that the middlewares leave, both filters of a response's
  -- header panic.
  pub response_filters_panic :
      (g : Gateway P) (s : World P × Header) (w : World P) (h : Header) (w' : World P) (h' : Header)
      → run_chain P (λ m. m.handle_upstream_response) (reverse g.middlewares) s
        ≡ (ok continue, (w, h))
      → run_chain P (λ m. m.handle_response) (reverse g.middlewares) s ≡ (ok continue, (w', h'))
      → get RouteConf w.ctx ≡ none
      → get RouteConf w'.ctx ≡ none
      → (upstream_response_filter P g s ≡ (panic "RouteConf should exist", (w, h)))
        × (response_filter P g s ≡ (panic "RouteConf should exist", (w', h')))
  unfolding upstream_response_filter response_filter rejected
  response_filters_panic g s w h w' h' first second missing missing' = ground arith

  -- With a `RouteConf`, a response that both filters let through has lost the headers that the
  -- route removes, and has those that it adds.
  pub response_filters-value :
      (L : HeaderLaws P) (g : Gateway P) (w w' : World P) (h h' : Header) (n : String)
      {route : RouteConf}
      → run_chain P (λ m. m.handle_upstream_response) (reverse g.middlewares) (w, h)
        ≡ (ok continue, (w, h))
      → run_chain P
          (λ m. m.handle_response)
          (reverse g.middlewares)
          (w, remove_headers P route.headers.remove_resp_headers h)
        ≡ (ok continue, (w, remove_headers P route.headers.remove_resp_headers h))
      → get RouteConf w.ctx ≡ some route
      → response_filter P g (upstream_response_filter P g (w, h)).1 ≡ (ok tt, (w', h'))
      → L.value h' n
        ≡ after_inserts P L route.headers.add_resp_headers n
            (if is_removed P L route.headers.remove_resp_headers n then none else L.value h n)
  unfolding upstream_response_filter response_filter rejected
  response_filters-value L g w w' h h' n {route} first second found done =
      let headers = route.headers in
      let removed = remove_headers P headers.remove_resp_headers h in
      ground (
        arith,
        insert_headers-value P L headers.add_resp_headers w w' removed h' n,
        remove_headers-value P L headers.remove_resp_headers h n,
      )
