-- ===== src/Lessons/PathRouting.antt =====
-- examples/09_path_routing.rs: the target that `request_filter` stores for the later phases.
use pingora_guide.Base.{
  ℕ, ◌≡◌, refl, String, Bool, true, false, Option, none, some, ok, err, panic, pure, ◌>>=◌, ◌>>◌,
  gets, expect, unwrap_or_else, arith, if◌then◌else◌,
}
use pingora_guide.Base.Text.{starts_with}
use pingora_guide.Pingora.{Pingora}
use pingora_guide.Lessons.Shared.{
  TunedPeer, untuned, Exchange, Call, Edit, on_session, on_header, set_ctx, connect_to,
}
use pingora_guide.Base.{[], ◌∷◌}
use pingora_guide.Lessons.Mains.Server.{
  Main, Outside, new_server, bootstrap, add_service, run_forever, http_proxy, tcp,
}

pub data Target : Type 0 where
  blue green : Target

module _ (P : Pingora) where
  open P use {uri_path, respond_error, insert_header}

  -- The context is an `Option<Target>`, empty at first.
  abbrev pub new_ctx : Option Target
  new_ctx = none

  unfoldable pub request_filter : Call P (Unit {0}) (Option Target) Bool
  request_filter = do
    path ← gets (λ x. uri_path x.session)
    if starts_with path "/blue"
        then (do set_ctx P (some blue); pure false)
        else if starts_with path "/green"
        then (do set_ctx P (some green); pure false)
        else (do unwrap_or_else tt (on_session P (respond_error 404)); pure true)

  abbrev pub address_of : Target → (String × ℕ) × String
  address_of blue = (("172.28.0.20", 8080), "blue.pingora.local")
  address_of green = (("172.28.0.21", 8080), "green.pingora.local")

  unfoldable pub upstream_peer : Call P (Unit {0}) (Option Target) (TunedPeer P)
  upstream_peer = do
    c ← gets (λ x. x.ctx)
    target ← expect c "Context should be set by request_filter"
    base ← connect_to P (address_of target).0 false (address_of target).1
    pure (untuned P base)

  unfoldable pub upstream_request_filter : Edit P (Unit {0}) (Option Target) (Unit {0})
  upstream_request_filter = do
    c ← gets (λ s. s.0.ctx)
    target ← expect c "Context should be set"
    on_header P (insert_header "Host" (address_of target).1)

  -- The target of a path.
  abbrev pub target_of : String → Option Target
  target_of path =
      if starts_with path "/blue"
      then some blue
      else if starts_with path "/green"
      then some green
      else none

  -- What follows `request_filter` on a request with a target: the peer is that target's, and the
  -- `Host` that goes upstream is the name that the peer was made for.
  abbrev pub IsRouted : Target → Exchange P (Unit {0}) (Option Target) → Type 0
  IsRouted target x =
      (upstream_peer x
        ≡ (do
          base ← connect_to P (address_of target).0 false (address_of target).1
          pure (untuned P base))
            x)
      × ((h : P.Header)
          → upstream_request_filter (x, h)
            ≡ on_header P (insert_header "Host" (address_of target).1) (x, h))

  -- A request whose path has a target passes, whatever its context was, and both later phases work
  -- on that target without the panic of `expect`; on any other path the client is sent a 404 and the phases are not
  -- reached, unless that answer panics.
  pub request_filter_targets :
      (x : Exchange P (Unit {0}) (Option Target))
      → ((target : Target)
          → target_of (uri_path x.session) ≡ some target
          → (request_filter x ≡ (ok false, record x { ctx = some target }))
            × IsRouted target (record x { ctx = some target }))
        × (target_of (uri_path x.session) ≡ none
            → let (r, s) = respond_error 404 x.session in
              request_filter x ≡ (
                elim r [ ok _ ↦ ok true | err e ↦ ok true | panic message ↦ panic message ],
                record x { session = s },
              ))
  unfolding request_filter upstream_peer upstream_request_filter
  request_filter_targets x = (
    λ target found. (ground (arith, found), (refl, λ h. refl)),
    λ missing. ground (arith, missing),
  )

-- `main`
unfoldable pub main : (O : Outside) → Main O (Unit {0})
main O = do
  new_server O
  bootstrap O
  add_service O (http_proxy none (tcp "0.0.0.0:6149" ∷ []))
  run_forever O
