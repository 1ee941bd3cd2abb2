-- ===== src/Startup/Phases.antt =====
-- src/gateway.rs under the framework: the handlers of one request in any order, with what happens to
-- the session and the clock between them, for the gateway that src/main.rs assembles.
use pingora_guide.Base.{
  ℕ, ◌+◌, ◌%◌, ◌≡◌, refl, ◌∙◌, String, Bool, Option, none, some, List, ◌∷◌, arith, Outcome, ok,
  panic, Option-cases, inl, inr, reverse, ap,
}
use pingora_guide.Config.{RouteConf, GatewayConf}
use pingora_guide.Pingora.{Pingora}
use pingora_guide.Context.{get, insert, RequestSizeState, any_conf, any_size}
use pingora_guide.Context.Laws.{get_of_other, get_mut-of_get, get_mut-of_none}
use pingora_guide.Request.{World}
use pingora_guide.Upstream.{Peer}
use pingora_guide.Upstreams.Factory.{LbPlan}
use pingora_guide.Middleware.{continue}
use pingora_guide.Middlewares.Metrics.{metrics}
use pingora_guide.Middlewares.Metrics.Laws.{handle_logging_records}
use pingora_guide.Middlewares.IpRestriction.{ip_restriction}
use pingora_guide.Middlewares.RequestSize
use pingora_guide.Middlewares.RequestSize.{request_size}
use pingora_guide.Gateway.Chain.{Gateway, run_chain, run_lenient, rejected}
use pingora_guide.Gateway.Requests.{
  new_ctx, early_request_filter, request_filter, request_body_filter,
}
use pingora_guide.Gateway.Connections.{
  upstream_peer, upstream_request_filter, connected_to_upstream,
}
use pingora_guide.Gateway.Connections.Laws.{upstream_request_filter_panics}
use pingora_guide.Gateway.Responses.{
  upstream_response_filter, response_filter, response_body_filter, logging,
}
use pingora_guide.Gateway.Responses.Laws.{response_filters_panic}
use pingora_guide.Gateway.Failures.{fail_to_proxy, status_code, page_path}
use pingora_guide.Gateway.Failures.Laws.{plain, fail_to_proxy-plain}
use pingora_guide.Startup.{Host, Args, Server, ServerService, proxy, Listener, assemble}
use pingora_guide.Startup.Panics.{NoConf, crate_chain, request_filter-NoConf}
use pingora_guide.Startup.Proxied.{
  AllKeep, upstream_peer-NoConf, new_ctx-NoConf, passes, assemble_gateway,
}

module _ (P : Pingora) where
  open P use {Error, Header, Bytes, Digest}

  -- One call of a handler, whatever it returns, or a change of the session or the clock outside the
  -- handlers.
  pub data Step (g : Gateway P) (w w' : World P) : Type 0 where
    outside : w'.ctx ≡ w.ctx → Step g w w'
    early : w' ≡ (early_request_filter P g w).1 → Step g w w'
    filter : w' ≡ (request_filter P g w).1 → Step g w w'
    body :
        (last : Bool) (b : Option Bytes)
        → w' ≡ (request_body_filter P g last (w, b)).1.0
        → Step g w w'
    peer : w' ≡ (upstream_peer P g w).1 → Step g w w'
    connected :
        (reused : Bool) (p : Peer P) (fd : ℕ) (digest : Option Digest)
        → w' ≡ (connected_to_upstream P g reused p fd digest w).1
        → Step g w w'
    upstream_request : (h : Header) → w' ≡ (upstream_request_filter P g (w, h)).1.0 → Step g w w'
    upstream_response : (h : Header) → w' ≡ (upstream_response_filter P g (w, h)).1.0 → Step g w w'
    response : (h : Header) → w' ≡ (response_filter P g (w, h)).1.0 → Step g w w'
    response_body :
        (last : Bool) (b : Option Bytes)
        → w' ≡ (response_body_filter P g last (w, b)).1.0
        → Step g w w'
    failed : (e : Error) → w' ≡ (fail_to_proxy P g e w).1 → Step g w w'
    logged : (e : Option Error) → w' ≡ (logging P g e w).1 → Step g w w'

  -- The states of a request that begins in `w`.
  pub data Reach (g : Gateway P) (w : World P) : World P → Type 0 where
    here : Reach g w w
    next : {t u : World P} → Reach g w t → Step g t u → Reach g w u

  module _ (g : Gateway P) (limit : RequestSize.RequestSize)
      (chain : g.middlewares ≡ crate_chain P limit) where
    early-NoConf : (w : World P) → NoConf P w → NoConf P (early_request_filter P g w).1
    unfolding early_request_filter run_chain metrics ip_restriction request_size
    early-NoConf w h = rw chain h

    count-NoConf :
        (b : Bytes) (s : RequestSizeState) (w : World P)
        → NoConf P w
        → NoConf P (RequestSize.count P limit b s (λ x. (insert {E = Error} x w.ctx).1) w).1
    unfolding RequestSize.count RequestSize.reject
    count-NoConf b s w h =
        let sum : RequestSizeState = record {
          bytes_read = (s.bytes_read + P.bytes_len b) % RequestSize.usize_mod;
        } in
        ground (arith, (get_of_other Error {U = RouteConf} sum w.ctx (λ e. cc)).0)

    size-NoConf :
        (last : Bool) (b : Option Bytes) (w : World P)
        → NoConf P w
        → NoConf P (RequestSize.handle_request_body P limit last (w, b)).1.0
    unfolding RequestSize.handle_request_body
    size-NoConf last none w h = ground arith
    size-NoConf last (some b) w h = elim (Option-cases (get RequestSizeState w.ctx)) [
      | inl missing ↦ ground (arith, get_mut-of_none RequestSizeState w.ctx)
      | inr (s, found) ↦
          ground (arith, get_mut-of_get Error RequestSizeState w.ctx found, count-NoConf b s w h)
    ]

    body-NoConf :
        (last : Bool) (b : Option Bytes) (w : World P)
        → NoConf P w
        → NoConf P (request_body_filter P g last (w, b)).1.0
    unfolding request_body_filter rejected run_chain metrics ip_restriction request_size
    body-NoConf last b w h = rw chain (ground (arith, size-NoConf last b w h))

    connected-NoConf :
        (reused : Bool) (p : Peer P) (fd : ℕ) (digest : Option Digest) (w : World P)
        → NoConf P w
        → NoConf P (connected_to_upstream P g reused p fd digest w).1
    unfolding connected_to_upstream run_chain metrics ip_restriction request_size
    connected-NoConf reused p fd digest w h = rw chain h

    back_passes :
        (w : World P) (h : Header)
        → (run_chain P (λ m. m.handle_upstream_response) (reverse g.middlewares) (w, h)
            ≡ (ok continue, (w, h)))
          × (run_chain P (λ m. m.handle_response) (reverse g.middlewares) (w, h)
              ≡ (ok continue, (w, h)))
    unfolding run_chain metrics ip_restriction request_size
    back_passes w h = (rw chain refl, rw chain refl)

    response_body-NoConf :
        (last : Bool) (b : Option Bytes) (w : World P)
        → NoConf P w
        → NoConf P (response_body_filter P g last (w, b)).1.0
    unfolding response_body_filter rejected run_chain metrics ip_restriction request_size
    response_body-NoConf last b w h = rw chain h

    errors_pass :
        (e : Error) (w : World P)
        → run_lenient P (λ m. m.handle_error e) (reverse g.middlewares) w ≡ (ok continue, w)
    unfolding run_lenient metrics ip_restriction request_size
    errors_pass e w = rw chain refl

    logging-NoConf : (e : Option Error) (w : World P) → NoConf P w → NoConf P (logging P g e w).1
    unfolding logging run_lenient metrics ip_restriction request_size
    logging-NoConf e w h = rw chain (ground (arith, handle_logging_records P e w))

    stuck :
        (w : World P) (h : Header)
        → NoConf P w
        → (upstream_request_filter P g (w, h) ≡ (panic "RouteConf should exist", (w, h)))
          × (upstream_response_filter P g (w, h) ≡ (panic "RouteConf should exist", (w, h)))
          × (response_filter P g (w, h) ≡ (panic "RouteConf should exist", (w, h)))
    stuck w h free =
        let (first, second) = back_passes w h in
        let (up, down) = response_filters_panic P g (w, h) w h w h first second free free in
        (upstream_request_filter_panics P g (w, h) w h (passes P g limit w h chain) free, up, down)

    page_free :
        (code : ℕ) (w : World P) → NoConf P w → page_path P code (get RouteConf w.ctx) ≡ none
    page_free code w h = rw h refl

    unserved :
        (e : Error) (w : World P)
        → NoConf P w
        → fail_to_proxy P g e w ≡ plain P (status_code (P.etype e)) w
    unserved e w h =
        fail_to_proxy-plain P g e w w (errors_pass e w) (page_free (status_code (P.etype e)) w h)

    -- What every handler and all that happens between them leave: no `RouteConf`.
    Step-NoConf : {w w' : World P} → AllKeep P g.upstreams → Step g w w' → NoConf P w → NoConf P w'
    Step-NoConf keep (outside same) h = ap (get RouteConf) same ∙ h
    Step-NoConf {w} keep (early e) h = rw e (early-NoConf w h)
    Step-NoConf {w} keep (filter e) h = rw e (request_filter-NoConf P g limit w chain h)
    Step-NoConf {w} keep (body last b e) h = rw e (body-NoConf last b w h)
    Step-NoConf {w} keep (peer e) h = rw e (upstream_peer-NoConf P g w keep h)
    Step-NoConf {w} keep (connected reused p fd digest e) h =
        rw e (connected-NoConf reused p fd digest w h)
    Step-NoConf {w} keep (upstream_request r e) h = rw e (ground (arith, (stuck w r h).0))
    Step-NoConf {w} keep (upstream_response r e) h = rw e (ground (arith, (stuck w r h).1))
    Step-NoConf {w} keep (response r e) h = rw e (ground (arith, (stuck w r h).2))
    Step-NoConf {w} keep (response_body last b e) h = rw e (response_body-NoConf last b w h)
    Step-NoConf {w} keep (failed e same) h = rw same (ground (arith, unserved e w h))
    Step-NoConf {w} keep (logged e same) h = rw same (logging-NoConf e w h)

    Reach-NoConf :
        {w w' : World P} → AllKeep P g.upstreams → NoConf P w → Reach g w w' → NoConf P w'
    Reach-NoConf keep h here = h
    Reach-NoConf keep h (next r s) = Step-NoConf keep s (Reach-NoConf keep h r)

  -- What the phases that want a `RouteConf` do: the three filters of headers panic, and an error is
  -- answered without an error page.
  abbrev pub IsStuck : Gateway P → World P → Type 0
  IsStuck g w =
      ((h : Header)
        → (upstream_request_filter P g (w, h) ≡ (panic "RouteConf should exist", (w, h)))
          × (upstream_response_filter P g (w, h) ≡ (panic "RouteConf should exist", (w, h)))
          × (response_filter P g (w, h) ≡ (panic "RouteConf should exist", (w, h))))
      × ((e : Error) → fail_to_proxy P g e w ≡ plain P (status_code (P.etype e)) w)

  module _ (load : ℕ → String → Outcome String GatewayConf) (host : Host P)
      (add_tls : ℕ → String → String → Outcome Error (Unit {0}))
      (task : LbPlan P → P.LoadBalancer) where
    -- Of a server that `main` assembles, in every state that the handlers reach from a new context,
    -- in whatever order and with whatever results, the three filters of headers panic and every
    -- error is answered plainly: no error page is ever sent.
    pub every_phase-IsStuck :
        (args : Args) (conf : GatewayConf) (n : ℕ) {server : Server P} {n' : ℕ} {g : Gateway P}
        {ls : List (Listener P)} {others : List (ServerService P)}
        → assemble P load host add_tls task args conf n ≡ (ok server, n')
        → server.services ≡ proxy g ls ∷ others
        → (now : ℕ) (w w' : World P) → w.ctx ≡ new_ctx P now
        → Reach g w w'
        → IsStuck g w'
    every_phase-IsStuck args conf n {g} built served now w w' fresh reached =
        let (chain, keep) = assemble_gateway P load host add_tls task args conf n built served in
        let limit = RequestSize.new conf.server in
        let start : NoConf P w = ground (arith, new_ctx-NoConf P now) in
        let free : NoConf P w' = Reach-NoConf g limit chain keep start reached in
        (λ h. stuck g limit chain w' h free, λ e. unserved g limit chain e w' free)
