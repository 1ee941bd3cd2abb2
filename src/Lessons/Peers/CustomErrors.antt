-- ===== src/Lessons/Peers/CustomErrors.antt =====
-- examples/13_custom_errors.rs: an error of its own, answered as JSON.
use pingora_guide.Base.{
  ℕ, String, Bool, true, false, Act, pure, throw, gets, ◌>>=◌, ◌>>◌, unwrap_or_else, if◌then◌else◌,
  ◌==◌, string_eq, nat_eq,
}
use pingora_guide.Base.Text.{◌<>◌}
use pingora_guide.Base.Text.Search.{text_len}
use pingora_guide.Error.{ErrorType, custom}
use pingora_guide.Pingora.{Pingora}
use pingora_guide.Gateway.Failures.{FailToProxy, unwrap}
use pingora_guide.Lessons.Shared.{TunedPeer, Call, on_session, fixed_peer, build}
use pingora_guide.Base.{[], none, ◌∷◌}
use pingora_guide.Lessons.Mains.Server.{
  Main, Outside, new_server, bootstrap, add_service, run_forever, http_proxy, tcp,
}

unfoldable pub error_code : ErrorType → ℕ
error_code (custom name) = if name == "SimulatedFailure" then 400 else 500
error_code _ = 500

-- `bytes_of` is the body that a text makes, `Bytes::from`.
module _ (P : Pingora) (bytes_of : String → P.Bytes) where
  unfoldable pub upstream_peer : Call P (Unit {0}) (Unit {0}) (TunedPeer P)
  upstream_peer = fixed_peer P ("172.28.0.20", 8080) false "blue.pingora.local"

  unfoldable pub request_filter : Call P (Unit {0}) (Unit {0}) Bool
  request_filter = do
    path ← gets (λ x. P.uri_path x.session)
    if path == "/oops" then throw (P.new_error (custom "SimulatedFailure")) else pure false

  unfoldable pub body_of : ℕ → String
  body_of code =
      "{\"status\": \"error\", \"code\": "
      <> P.usize_to_string code
      <> ", \"message\": \"We caught a custom error!\"}"

  unfoldable pub error_header : ℕ → Act P.Header P.Error (Unit {0})
  error_header code = do
    unwrap P (P.insert_header "Content-Type" "application/json")
    unwrap P (P.insert_header "Content-Length" (P.usize_to_string (text_len (body_of code))))

  unfoldable pub fail_to_proxy : P.Error → Call P (Unit {0}) (Unit {0}) FailToProxy
  fail_to_proxy e = do
    let code = error_code (P.etype e)
    header ← build P (error_header code) code
    unwrap_or_else tt (on_session P (P.write_response_header header false))
    unwrap_or_else tt (on_session P (P.write_response_body (bytes_of (body_of code)) true))
    pure (record { error_code = code; can_reuse_downstream = false })

-- `main`
unfoldable pub main : (O : Outside) → Main O (Unit {0})
main O = do
  new_server O
  bootstrap O
  add_service O (http_proxy none (tcp "0.0.0.0:6153" ∷ []))
  run_forever O
