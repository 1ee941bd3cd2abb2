-- ===== src/Gateway/Failures.antt =====
-- src/gateway.rs: `fail_to_proxy`, its status codes and its error pages.
pub mod Laws
use pingora_guide.Base.{
  ℕ, String, Bool, true, false, Option, none, some, Outcome, ok, err, panic, Act, pure, gets, ◌>>=◌,
  ◌>>◌, unwrap_or_else, reverse, nat_eq, if◌then◌else◌,
}
use pingora_guide.Base.Dict
use pingora_guide.Config.{RouteConf}
use pingora_guide.Error.{
  ErrorType, connect_refused, connect_no_route, bind_error, read_timedout, connect_timedout,
}
use pingora_guide.Pingora.{Pingora}
use pingora_guide.Context.{get, any_conf}
use pingora_guide.Request.{World, ProxyHandler, on_session, draw}
use pingora_guide.Middleware.{MiddlewareDecision, stop, continue}
use pingora_guide.Gateway.Chain.{Gateway, run_lenient}

pub record FailToProxy : Type 0 where
  pub error_code : ℕ
  pub can_reuse_downstream : Bool

-- `match e.etype`
unfoldable pub status_code : ErrorType → ℕ
status_code connect_refused = 502
status_code connect_no_route = 502
status_code bind_error = 502
status_code read_timedout = 504
status_code connect_timedout = 504
status_code _ = 500

module _ (P : Pingora) where
  open P use {Error, Header, Bytes, insert_header, write_response_header, write_response_body}

  -- `Result::unwrap`
  abbrev pub unwrap : {S A : Type 0} → Act S Error A → Act S Error A
  unwrap m s =
      let (r, s') = m s in
      elim r [
        | ok a ↦ (ok a, s')
        | err e ↦ (panic "called `Result::unwrap()` on an `Err` value", s')
        | panic message ↦ (panic message, s')
      ]

  -- `Result::is_ok`
  abbrev pub is_ok : {S A : Type 0} → Act S Error A → Act S Error Bool
  is_ok m s =
      let (r, s') = m s in
      elim r [ ok a ↦ (ok true, s') | err e ↦ (ok false, s') | panic message ↦ (panic message, s') ]

  -- The header of an error page.
  unfoldable pub page_header : Bytes → Act Header Error (Unit {0})
  page_header content = do
    unwrap (insert_header "Content-Type" "text/html")
    unwrap (insert_header "Content-Length" (P.usize_to_string (P.bytes_len content)))

  -- Writes a page; the result says if its header was written.
  unfoldable pub write_page : ℕ → Bytes → ProxyHandler P Bool
  write_page code content = do
    h ← (λ w.
        let (r, h) = page_header content (P.build code) in
        elim r [ ok _ ↦ (ok h, w) | err e ↦ (err e, w) | panic message ↦ (panic message, w) ])
    written ← is_ok (on_session P (write_response_header h false))
    if written
        then (do unwrap_or_else tt (on_session P (write_response_body content true)); pure true)
        else pure false

  -- The page that the route configures for a code, where there is one and it can be read.
  unfoldable pub serve_page : ℕ → Option String → ProxyHandler P Bool
  serve_page code none = pure false
  serve_page code (some path) = do
    call ← draw P
    elim (P.read_file call path) [
      | ok content ↦ write_page code content
      | err e ↦ pure false
      | panic message ↦ (λ w. (panic message, w))
    ]

  abbrev pub page_path : ℕ → Option RouteConf → Option String
  page_path code none = none
  page_path code (some route) = elim route.error_pages [
    | none ↦ none
    | some pages ↦ Dict.lookup code pages
  ]

  unfoldable pub respond : ℕ → ProxyHandler P FailToProxy
  respond code = do
    c ← gets (λ w. w.ctx)
    error_page_served ← serve_page code (page_path code (get RouteConf c))
    if error_page_served then pure tt else unwrap_or_else tt (on_session P (P.respond_error code))
    pure (record { error_code = code; can_reuse_downstream = false })

  unfoldable pub fail_to_proxy : Gateway P → Error → ProxyHandler P FailToProxy
  fail_to_proxy g e = do
    d ← run_lenient P (λ m. m.handle_error e) (reverse g.middlewares)
    elim d [
      | stop ↦ pure (record { error_code = 0; can_reuse_downstream = false })
      | continue ↦ respond (status_code (P.etype e))
    ]
