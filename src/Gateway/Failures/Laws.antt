-- ===== src/Gateway/Failures/Laws.antt =====
-- src/gateway.rs: the answers of `fail_to_proxy`.
use pingora_guide.Base.{
  ℕ, ◌+◌, ◌≡◌, String, true, false, none, some, arith, reverse, Outcome, ok, err, panic,
}
use pingora_guide.Config.{RouteConf}
use pingora_guide.Pingora.{Pingora}
use pingora_guide.Context.{get, any_conf}
use pingora_guide.Request.{World}
use pingora_guide.Middleware.{continue, stop}
use pingora_guide.Gateway.Chain.{Gateway, run_lenient}
use pingora_guide.Gateway.Failures.{
  FailToProxy, status_code, page_header, write_page, serve_page, page_path, respond, fail_to_proxy,
}

module _ (P : Pingora) where
  open P use {Error, Bytes, Header}

  -- What remains of an answer whose error is dropped: only a panic.
  abbrev pub reported : ℕ → Outcome Error (Unit {0}) → Outcome Error FailToProxy
  reported code (ok _) = ok (record { error_code = code; can_reuse_downstream = false })
  reported code (err _) = ok (record { error_code = code; can_reuse_downstream = false })
  reported code (panic message) = panic message

  -- A plain answer with a status code.
  abbrev pub plain : ℕ → World P → Outcome Error FailToProxy × World P
  plain code w =
      let (r, s) = P.respond_error code w.session in (reported code r, record w { session = s })

  -- If a middleware stops in `handle_error`, nothing is sent: the code is 0.
  pub fail_to_proxy_stopped :
      (g : Gateway P) (e : Error) (w : World P) {w' : World P}
      → run_lenient P (λ m. m.handle_error e) (reverse g.middlewares) w ≡ (ok stop, w')
      → fail_to_proxy P g e w ≡ (ok (record { error_code = 0; can_reuse_downstream = false }), w')
  unfolding fail_to_proxy
  fail_to_proxy_stopped g e w stopped = ground arith

  -- Where no middleware stops and no error page is configured for the code in a `RouteConf` of the
  -- context, the client is sent the plain answer with the code of the error, once.
  pub fail_to_proxy-plain :
      (g : Gateway P) (e : Error) (w : World P) (w' : World P)
      → run_lenient P (λ m. m.handle_error e) (reverse g.middlewares) w ≡ (ok continue, w')
      → page_path P (status_code (P.etype e)) (get RouteConf w'.ctx) ≡ none
      → fail_to_proxy P g e w ≡ plain (status_code (P.etype e)) w'
  unfolding fail_to_proxy respond serve_page
  fail_to_proxy-plain g e w w' passed no_page = ground arith

  -- Where the page that is configured for the code cannot be read, the plain answer is sent.
  pub fail_to_proxy_unread :
      (g : Gateway P) (e : Error) (w : World P) (w' : World P) {path text : String}
      → run_lenient P (λ m. m.handle_error e) (reverse g.middlewares) w ≡ (ok continue, w')
      → page_path P (status_code (P.etype e)) (get RouteConf w'.ctx) ≡ some path
      → P.read_file w'.calls path ≡ err text
      → fail_to_proxy P g e w ≡ plain (status_code (P.etype e)) (record w' { calls = w'.calls + 1 })
  unfolding fail_to_proxy respond serve_page
  fail_to_proxy_unread g e w w' passed configured unread = ground arith

  -- Where it can be read and its header is written, the client is sent the header and the page, and
  -- no plain answer; an error while the body is written is dropped.
  pub fail_to_proxy_page :
      (g : Gateway P) (e : Error) (w : World P) (w' : World P) {path : String} {content : Bytes}
      {h : Header} {s : P.Session}
      → run_lenient P (λ m. m.handle_error e) (reverse g.middlewares) w ≡ (ok continue, w')
      → page_path P (status_code (P.etype e)) (get RouteConf w'.ctx) ≡ some path
      → P.read_file w'.calls path ≡ ok content
      → page_header P content (P.build (status_code (P.etype e))) ≡ (ok tt, h)
      → P.write_response_header h false w'.session ≡ (ok tt, s)
      → let (r, s') = P.write_response_body content true s in
        fail_to_proxy P g e w
        ≡ (reported (status_code (P.etype e)) r, record w' { calls = w'.calls + 1; session = s' })
  unfolding fail_to_proxy respond serve_page write_page
  fail_to_proxy_page g e w w' passed configured read built written = ground arith
