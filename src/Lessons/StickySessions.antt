-- ===== src/Lessons/StickySessions.antt =====
-- examples/29_sticky_sessions.rs: the session cookie that keeps a client at one backend.
pub mod Kept
use pingora_guide.Base.{
  ℕ, ◌+◌, ◌%◌, ◌^◌, String, Bool, false, Option, none, some, List, [], ◌∷◌, Outcome, ok, Act, pure,
  ◌>>=◌, ◌>>◌, gets, ◌==◌, string_eq, if◌then◌else◌, unwrap_or,
}
use pingora_guide.Base.Text.{nil, ◌<>◌, split, trim, starts_with}
use pingora_guide.Base.Text.Search.{is_empty, trim_start_matches}
use pingora_guide.Pingora.{Pingora}
use pingora_guide.Lessons.Shared.{
  TunedPeer, untuned, Exchange, Call, Edit, on_header, select_backend, set_ctx,
}
use pingora_guide.Lessons.Mains.Server.{
  Main, Outside, new_server, bootstrap, add_service, run_forever, background, balancer, http_proxy,
  tcp, try_from_iter, pool_of, evenly,
}

-- The loop over the parts of the cookie, up to its `break`.
unfoldable pub find_session : List String → String
find_session [] = nil
find_session (p ∷ ps) =
    let rest = find_session ps in
    let part = trim p in
    if starts_with part "session-id=" then trim_start_matches part "session-id=" else rest

unfoldable pub session_of : String → String
session_of cookie_str = find_session (split b';' cookie_str)

unfoldable pub cookie_value : String → String
cookie_value new_id = "session-id=" <> new_id <> "; Path=/"

module _ (P : Pingora) where
  open P use {header, to_str, usize_to_string, insert_header}

  -- The static counter, which starts at 100, and the service's pool.
  pub record Globals : Type 0 where
    pub session_counter : ℕ
    pub pool : P.LoadBalancer

  -- The context is `StickyCtx`, one `Option<String>`.
  abbrev pub new_ctx : Option String
  new_ctx = none

  -- The session id that the request carries, or empty.
  unfoldable pub sent_session : P.Session → String
  sent_session session = elim (header session "Cookie") [
    | none ↦ nil
    | some cookie_val ↦ session_of (unwrap_or "" (to_str cookie_val))
  ]

  unfoldable pub user_id : ℕ → String
  user_id new_id = "user-" <> usize_to_string new_id

  -- `fetch_add` wraps around.
  abbrev fetch_add : Call P Globals (Option String) ℕ
  fetch_add x = (
    ok x.shared.session_counter,
    record x {
      shared = record x.shared { session_counter = (x.shared.session_counter + 1) % 2 ^ 64 };
    },
  )

  -- The end of `upstream_peer`: the backend of a session.
  unfoldable pub stuck_peer : String → Call P Globals (Option String) (TunedPeer P)
  stuck_peer session_id x =
      (do
        upstream ← select_backend P x.shared.pool session_id "Empty upstream pool"
        pure (untuned P (P.new_peer upstream false "sticky.cluster")))
        x

  unfoldable pub upstream_peer : Call P Globals (Option String) (TunedPeer P)
  upstream_peer = do
    session_id ← gets (λ x. sent_session x.session)
    if is_empty session_id
        then (do new_id ← fetch_add; set_ctx P (some (user_id new_id)); stuck_peer (user_id new_id))
        else stuck_peer session_id

  unfoldable pub response_filter : Edit P Globals (Option String) (Unit {0})
  response_filter = do
    new_session_id ← gets (λ s. s.0.ctx)
    elim new_session_id [
      | none ↦ pure tt
      | some new_id ↦ on_header P (insert_header "Set-Cookie" (cookie_value new_id))
    ]

-- `main`
unfoldable pub main : (O : Outside) → Main O (Unit {0})
main O = do
  new_server O
  bootstrap O
  let addresses : List String = "172.28.0.20:8080" ∷ "172.28.0.21:8080" ∷ []
  try_from_iter O addresses
  let upstreams = pool_of (evenly addresses)
  add_service O (background "sticky_lb" (balancer upstreams))
  add_service O (http_proxy (some upstreams) (tcp "0.0.0.0:6173" ∷ []))
  run_forever O
