-- ===== src/Middlewares/IpRestriction/Laws.antt =====
-- src/middlewares/ip_restriction.rs: which requests are refused.
use pingora_guide.Base.{
  ◌≡◌, Bool, false, not, ◌&&◌, ◌||◌, none, some, List, [], ◌∷◌, arith, ok, any, is_empty,
  if◌then◌else◌,
}
use pingora_guide.Pingora.{Pingora}
use pingora_guide.Router.{RouteEntry, CompiledAccessControl}
use pingora_guide.Context.{get, any_entry}
use pingora_guide.Request.{World}
use pingora_guide.Middleware.{continue}
use pingora_guide.Middlewares.IpRestriction.{reject, check_allow, check_deny, handle_request}

module _ (P : Pingora) where
  open P use {IpNet, IpAddr, net_contains, client_addr, as_inet, ip, respond_error, error_text}

  abbrev contains : List IpNet → IpAddr → Bool
  contains nets addr = any (λ net. net_contains net addr) nets

  -- What an access control says of an address: a denied range wins, and a list of allowed ranges
  -- that is not empty has to hold the address.
  abbrev pub refuses : CompiledAccessControl P → IpAddr → Bool
  refuses acl addr =
      contains acl.deny addr || (not (is_empty acl.allow) && not (contains acl.allow addr))

  -- Only a request with a route that has an access control, from an internet address, is refused.
  abbrev pub is_refused : World P → Bool
  is_refused w = elim (get (RouteEntry P) w.ctx) [
    | none ↦ false
    | some route ↦ elim route.access_control [
      | none ↦ false
      | some acl ↦ elim (client_addr w.session) [
        | none ↦ false
        | some addr ↦ elim (as_inet addr) [
          | none ↦ false
          | some inet_ip ↦ refuses acl.inner (ip inet_ip)
        ]
      ]
    ]
  ]

  check_allow_lem :
      (allow : List IpNet) (addr : IpAddr) (blocks : List IpNet) (w : World P)
      → check_allow P allow addr blocks w ≡ (
          if not (is_empty allow) && not (contains blocks addr)
          then reject P w
          else (ok continue, w))
  unfolding check_allow
  check_allow_lem allow addr [] w = ground arith
  check_allow_lem allow addr (b ∷ blocks) w = ground (arith, check_allow_lem allow addr blocks w)

  check_deny_lem :
      (allow : List IpNet) (addr : IpAddr) (blocks : List IpNet) (w : World P)
      → check_deny P allow addr blocks w ≡ (
          if contains blocks addr || (not (is_empty allow) && not (contains allow addr))
          then reject P w
          else (ok continue, w))
  unfolding check_deny
  check_deny_lem allow addr [] w = check_allow_lem allow addr allow w
  check_deny_lem allow addr (b ∷ blocks) w = ground (arith, check_deny_lem allow addr blocks w)

  pub handle_request_decides :
      (w : World P) → handle_request P w ≡ (if is_refused w then reject P w else (ok continue, w))
  unfolding handle_request
  handle_request_decides w = grind (arith, check_deny_lem)
