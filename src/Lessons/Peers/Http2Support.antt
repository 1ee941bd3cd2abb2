-- ===== src/Lessons/Peers/Http2Support.antt =====
-- examples/14_http2_support.rs: HTTP/2 or HTTP/1 upstream.
use pingora_guide.Base.{true, some, pure, ◌>>=◌, string_eq, nat_eq}
use pingora_guide.Pingora.{Pingora}
use pingora_guide.Upstream.{h2h1}
use pingora_guide.Lessons.Shared.{TunedPeer, Call, Edit, on_header, fixed_peer}
use pingora_guide.Base.{[], if◌then◌else◌, none, not, ◌>>◌, ◌∷◌}
use pingora_guide.Lessons.Mains.Server.{
  Main, Outside, new_server, bootstrap, add_service, run_forever, http_proxy, tls_h2, call, exists,
  missing_keys,
}

module _ (P : Pingora) where
  unfoldable pub upstream_peer : Call P (Unit {0}) (Unit {0}) (TunedPeer P)
  upstream_peer = do
    peer ← fixed_peer P ("172.28.0.22", 443) true "advanced.pingora.local"
    pure (record peer { alpn = some h2h1 })

  unfoldable pub upstream_request_filter : Edit P (Unit {0}) (Unit {0}) (Unit {0})
  upstream_request_filter = on_header P (P.insert_header "Host" "advanced.pingora.local")

-- `main`
unfoldable pub main : (O : Outside) → Main O (Unit {0})
main O = do
  new_server O
  bootstrap O
  cert_found ← exists O "/keys/server.crt"
  if not cert_found then missing_keys O "/keys/server.crt" else (do
    call O (λ n. O.tls_settings n "/keys/server.crt" "/keys/server.key") []
    add_service O
        (http_proxy none (tls_h2 "0.0.0.0:6154" "/keys/server.crt" "/keys/server.key" ∷ []))
    run_forever O)
