-- ===== src/Lessons/Peers/MutualTls.antt =====
-- examples/21_mutual_tls.rs: a client certificate for one path.
use pingora_guide.Base.{true, some, pure, gets, ◌>>=◌, if◌then◌else◌, ◌==◌, string_eq, nat_eq}
use pingora_guide.Pingora.{Pingora}
use pingora_guide.Lessons.Shared.{TunedPeer, Call, fixed_peer}
use pingora_guide.Base.{[], none, not, throw, ◌>>◌, ◌∷◌}
use pingora_guide.Lessons.Mains.Server.{
  Main, Outside, new_server, bootstrap, add_service, run_forever, http_proxy, tcp, call, exists,
  or_text,
}

module _ (P : Pingora) where
  -- The service holds the certificate.
  unfoldable pub upstream_peer : Call P P.CertKey (Unit {0}) (TunedPeer P)
  upstream_peer = do
    path ← gets (λ x. P.uri_path x.session)
    client_cert ← gets (λ x. x.shared)
    peer ← fixed_peer P ("172.28.0.22", 8443) true "advanced.pingora.local"
    pure (if path == "/auth" then record peer { cert = some client_cert } else peer)

-- `main`
unfoldable pub main : (O : Outside) → Main O (Unit {0})
main O = do
  new_server O
  bootstrap O
  cert_found ← exists O "/keys/client.crt"
  if not cert_found
      then throw (O.from_text "Client keys missing at /keys/client.crt. Run 00-setup-certs.sh")
      else (do
        cert_bytes ← call O (λ n. O.read_file n "/keys/client.crt") []
        key_bytes ← call O (λ n. O.read_file n "/keys/client.key") []
        call O (λ n. or_text O "Failed to parse certificate: " (O.x509_from_pem cert_bytes)) []
        call O (λ n. or_text O "Failed to parse private key: " (O.private_key_from_pem key_bytes))
            []
        add_service O (http_proxy none (tcp "0.0.0.0:6165" ∷ []))
        run_forever O)
