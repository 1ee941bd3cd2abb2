-- ===== src/Lessons/Limits/RequestSizeLimit.antt =====
-- examples/40_request_size_limit.rs: the size of a body, by its header and by its chunks.
use pingora_guide.Base.{
  ℕ, ◌+◌, ◌%◌, ◌^◌, Bool, false, Option, none, some, pure, throw, gets, ◌>>=◌, ◌>>◌, unwrap_or_else,
  if◌then◌else◌, ◌==◌, string_eq, nat_eq, ltb, leb,
}
use pingora_guide.Error.{ErrorType, custom}
use pingora_guide.Pingora.{Pingora}
use pingora_guide.Gateway.Failures.{FailToProxy}
use pingora_guide.Lessons.Shared.{TunedPeer, Call, on_session, set_ctx, balanced_peer, refuse}
use pingora_guide.Base.{List, String, [], ◌∷◌}
use pingora_guide.Lessons.Mains.Server.{
  Main, Outside, new_server, bootstrap, add_service, run_forever, http_proxy, tcp, try_from_iter,
  pool_of, evenly,
}

abbrev pub max_body_size : ℕ
max_body_size = 100

module _ (P : Pingora) where
  -- The context is `SizeCtx`, one count.
  abbrev pub new_ctx : ℕ
  new_ctx = 0

  -- The `Content-Length` of a request, if it is a number.
  unfoldable pub declared : P.Session → Option ℕ
  declared session = elim (P.header session "Content-Length") [
    | none ↦ none
    | some value ↦ elim (P.to_str value) [ none ↦ none | some len_str ↦ P.parse_usize len_str ]
  ]

  unfoldable pub request_filter : Call P P.LoadBalancer ℕ Bool
  request_filter = do
    len ← gets (λ x. declared x.session)
    elim len [
      | none ↦ pure false
      | some len ↦ if ltb max_body_size len then refuse P 413 else pure false
    ]

  -- The count wraps around, as in a release build.
  unfoldable pub request_body_filter : Option P.Bytes → Call P P.LoadBalancer ℕ (Unit {0})
  request_body_filter none = pure tt
  request_body_filter (some b) = do
    bytes_read ← gets (λ x. (x.ctx + P.bytes_len b) % 2 ^ 64)
    set_ctx P bytes_read
    if leb max_body_size bytes_read
        then throw (P.explain (custom "BodyTooLarge") "Stream exceeded limit")
        else pure tt

  unfoldable pub upstream_peer : Call P P.LoadBalancer ℕ (TunedPeer P)
  upstream_peer x = balanced_peer P x.shared "size-limit.cluster" x

  abbrev too_large : ErrorType → Bool
  too_large (custom name) = name == "BodyTooLarge"
  too_large _ = false

  unfoldable pub fail_to_proxy : P.Error → Call P P.LoadBalancer ℕ FailToProxy
  fail_to_proxy e =
      if too_large (P.etype e)
      then (do
        unwrap_or_else tt (on_session P (P.respond_error 413))
        pure (record { error_code = 413; can_reuse_downstream = false }))
      else pure (record { error_code = 502; can_reuse_downstream = false })

-- `main`
unfoldable pub main : (O : Outside) → Main O (Unit {0})
main O = do
  new_server O
  bootstrap O
  let addresses : List String = "172.28.0.20:8080" ∷ "172.28.0.21:8080" ∷ []
  try_from_iter O addresses
  add_service O (http_proxy (some (pool_of (evenly addresses))) (tcp "0.0.0.0:6184" ∷ []))
  run_forever O
