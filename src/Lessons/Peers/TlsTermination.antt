-- ===== src/Lessons/Peers/TlsTermination.antt =====
-- examples/07_tls_termination.rs: a proxy behind a TLS listener.
use pingora_guide.Base.{false, string_eq, nat_eq}
use pingora_guide.Pingora.{Pingora}
use pingora_guide.Lessons.Shared.{TunedPeer, Call, fixed_peer}
use pingora_guide.Base.{[], if◌then◌else◌, none, not, pure, ◌>>=◌, ◌>>◌, ◌∷◌}
use pingora_guide.Lessons.Mains.Server.{
  Main, Outside, new_server, bootstrap, add_service, run_forever, http_proxy, tls_h2, call, exists,
  missing_keys,
}

module _ (P : Pingora) where
  unfoldable pub upstream_peer : Call P (Unit {0}) (Unit {0}) (TunedPeer P)
  upstream_peer = fixed_peer P ("172.28.0.20", 8080) false "blue.pingora.local"

-- `main`
unfoldable pub main : (O : Outside) → Main O (Unit {0})
main O = do
  new_server O
  bootstrap O
  cert_found ← exists O "/keys/server.crt"
  key_found ← if cert_found then exists O "/keys/server.key" else pure false
  if not key_found then missing_keys O "/keys/server.crt" else (do
    call O (λ n. O.tls_settings n "/keys/server.crt" "/keys/server.key") []
    add_service O
        (http_proxy none (tls_h2 "0.0.0.0:6147" "/keys/server.crt" "/keys/server.key" ∷ []))
    run_forever O)
