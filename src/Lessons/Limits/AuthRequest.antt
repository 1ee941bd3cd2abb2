-- ===== src/Lessons/Limits/AuthRequest.antt =====
-- examples/41_auth_request.rs: a bearer token.
use pingora_guide.Base.{
  String, Bool, false, not, none, some, pure, gets, ◌>>=◌, if◌then◌else◌, string_eq, nat_eq,
}
use pingora_guide.Pingora.{Pingora}
use pingora_guide.Lessons.Shared.{TunedPeer, Call, balanced_peer, refuse}
use pingora_guide.Base.{List, [], ◌>>◌, ◌∷◌}
use pingora_guide.Lessons.Mains.Server.{
  Main, Outside, new_server, bootstrap, add_service, run_forever, http_proxy, tcp, try_from_iter,
  pool_of, evenly,
}

abbrev pub secret_token : String
secret_token = "Bearer super-secret-token"

-- The bytes of a header's value are those of a text.
module _ (P : Pingora) (has_bytes : P.HeaderValue → String → Bool) where
  unfoldable pub request_filter : Call P P.LoadBalancer (Unit {0}) Bool
  request_filter = do
    auth_header ← gets (λ x. P.header x.session "Authorization")
    elim auth_header [
      | none ↦ refuse P 401
      | some value ↦ if not (has_bytes value secret_token) then refuse P 403 else pure false
    ]

  unfoldable pub upstream_peer : Call P P.LoadBalancer (Unit {0}) (TunedPeer P)
  upstream_peer x = balanced_peer P x.shared "auth-protected.cluster" x

-- `main`
unfoldable pub main : (O : Outside) → Main O (Unit {0})
main O = do
  new_server O
  bootstrap O
  let addresses : List String = "172.28.0.20:8080" ∷ "172.28.0.21:8080" ∷ []
  try_from_iter O addresses
  add_service O (http_proxy (some (pool_of (evenly addresses))) (tcp "0.0.0.0:6185" ∷ []))
  run_forever O
