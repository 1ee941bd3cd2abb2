-- ===== src/Lessons/Limits/BasicAuth.antt =====
-- examples/42_basic_auth.rs: a password, with a challenge where it is missing.
use pingora_guide.Base.{
  String, Bool, true, false, not, none, some, Act, pure, gets, ◌>>=◌, ◌>>◌, if◌then◌else◌,
  string_eq, nat_eq,
}
use pingora_guide.Pingora.{Pingora}
use pingora_guide.Gateway.Failures.{unwrap}
use pingora_guide.Lessons.Shared.{TunedPeer, Call, on_session, balanced_peer, refuse, build}
use pingora_guide.Base.{List, [], ◌∷◌}
use pingora_guide.Lessons.Mains.Server.{
  Main, Outside, new_server, bootstrap, add_service, run_forever, http_proxy, tcp, try_from_iter,
  pool_of, evenly,
}

abbrev pub expected_auth : String
expected_auth = "Basic YWRtaW46cGFzc3dvcmQ="

-- The bytes of a header's value are those of a text.
module _ (P : Pingora) (has_bytes : P.HeaderValue → String → Bool) where
  -- The header of the challenge, built and filled with `unwrap`.
  unfoldable pub challenge : Act P.Header P.Error (Unit {0})
  challenge = do
    unwrap P (P.insert_header "WWW-Authenticate" "Basic realm=\"PingoraProxy\"")
    unwrap P (P.insert_header "Content-Length" "0")

  unfoldable pub request_filter : Call P P.LoadBalancer (Unit {0}) Bool
  request_filter = do
    auth_header ← gets (λ x. P.header x.session "Authorization")
    elim auth_header [
      | none ↦ do
        header ← build P challenge 401
        on_session P (P.write_response_header header true)
        pure true
      | some value ↦ if not (has_bytes value expected_auth) then refuse P 403 else pure false
    ]

  unfoldable pub upstream_peer : Call P P.LoadBalancer (Unit {0}) (TunedPeer P)
  upstream_peer x = balanced_peer P x.shared "basic-auth.cluster" x

-- `main`
unfoldable pub main : (O : Outside) → Main O (Unit {0})
main O = do
  new_server O
  bootstrap O
  let addresses : List String = "172.28.0.20:8080" ∷ "172.28.0.21:8080" ∷ []
  try_from_iter O addresses
  add_service O (http_proxy (some (pool_of (evenly addresses))) (tcp "0.0.0.0:6186" ∷ []))
  run_forever O
