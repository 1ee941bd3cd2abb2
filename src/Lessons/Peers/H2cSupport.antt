-- ===== src/Lessons/Peers/H2cSupport.antt =====
-- examples/15_h2c_support.rs: HTTP/2 upstream without TLS.
use pingora_guide.Base.{false, some, pure, ◌>>=◌, string_eq, nat_eq}
use pingora_guide.Pingora.{Pingora}
use pingora_guide.Upstream.{h2}
use pingora_guide.Lessons.Shared.{TunedPeer, Call, Edit, on_header, fixed_peer}
use pingora_guide.Base.{[], none, ◌>>◌, ◌∷◌}
use pingora_guide.Lessons.Mains.Server.{
  Main, Outside, new_server, bootstrap, add_service, run_forever, http_proxy, tcp,
}

module _ (P : Pingora) where
  unfoldable pub upstream_peer : Call P (Unit {0}) (Unit {0}) (TunedPeer P)
  upstream_peer = do
    peer ← fixed_peer P ("172.28.0.22", 8081) false "advanced.pingora.local"
    pure (record peer { alpn = some h2 })

  unfoldable pub upstream_request_filter : Edit P (Unit {0}) (Unit {0}) (Unit {0})
  upstream_request_filter = on_header P (P.insert_header "Host" "advanced.pingora.local")

-- `main`
unfoldable pub main : (O : Outside) → Main O (Unit {0})
main O = do
  new_server O
  bootstrap O
  add_service O (http_proxy none (tcp "0.0.0.0:6155" ∷ []))
  run_forever O
