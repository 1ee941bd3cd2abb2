-- ===== src/Middlewares/IpRestriction.antt =====
-- src/middlewares/ip_restriction.rs: the access control of a route.
pub mod Laws
use pingora_guide.Base.{
  String, Bool, not, Option, none, some, List, [], ◌∷◌, Outcome, ok, err, panic, pure, ◌>>=◌, ◌>>◌,
  map_err, any, is_empty, if◌then◌else◌,
}
use pingora_guide.Error.{PingoraGuideError, gateway, acl_error}
use pingora_guide.Pingora.{Pingora}
use pingora_guide.Router.{RouteEntry, CompiledAccessControl}
use pingora_guide.Context.{get, any_entry}
use pingora_guide.Request.{World, Handler, on_session}
use pingora_guide.Middleware.{MiddlewareDecision, continue, stop, Middleware, provided}

module _ (P : Pingora) where
  open P use {IpAddr, IpNet, net_contains, respond_error, error_text, client_addr, as_inet, ip}

  -- `respond_error(403)`, its error wrapped, and then `Stop`
  unfoldable pub reject : Handler P MiddlewareDecision
  reject = do
    map_err (λ e. gateway (acl_error (error_text e))) (on_session P (respond_error 403))
    pure stop

  -- The loop over `acl.allow` and what follows it.
  unfoldable pub check_allow : List IpNet → IpAddr → List IpNet → Handler P MiddlewareDecision
  unfolding reject
  check_allow allow addr [] = if not (is_empty allow) then reject else pure continue
  check_allow allow addr (allow_block ∷ blocks) =
      if net_contains allow_block addr then pure continue else check_allow allow addr blocks

  -- The loop over `acl.deny` and what follows it.
  unfoldable pub check_deny : List IpNet → IpAddr → List IpNet → Handler P MiddlewareDecision
  unfolding reject check_allow
  check_deny allow addr [] = check_allow allow addr allow
  check_deny allow addr (deny_block ∷ blocks) =
      if net_contains deny_block addr then reject else check_deny allow addr blocks

  -- `IpRestrictionMiddleware::handle_request`
  unfoldable pub handle_request : Handler P MiddlewareDecision
  handle_request w = elim (get (RouteEntry P) w.ctx) [
    | none ↦ (ok continue, w)
    | some route ↦ elim route.access_control [
      | none ↦ (ok continue, w)
      | some acl ↦ elim (client_addr w.session) [
        | none ↦ (ok continue, w)
        | some addr ↦ elim (as_inet addr) [
          | none ↦ (ok continue, w)
          | some inet_ip ↦ check_deny acl.inner.allow (ip inet_ip) acl.inner.deny w
        ]
      ]
    ]
  ]

  unfoldable pub ip_restriction : Middleware P
  unfolding handle_request
  ip_restriction = record (provided P "ip_restriction") { handle_request = handle_request }
