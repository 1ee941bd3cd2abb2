-- ===== src/Lessons/Peers/GrpcProxy.antt =====
-- examples/24_grpc_proxy.rs: a gRPC upstream.
use pingora_guide.Base.{true, some, pure, ◌>>=◌, string_eq, nat_eq}
use pingora_guide.Pingora.{Pingora}
use pingora_guide.Upstream.{h2}
use pingora_guide.Lessons.Shared.{TunedPeer, Call, Edit, fixed_peer}
use pingora_guide.Base.{[], none, ◌>>◌, ◌∷◌}
use pingora_guide.Lessons.Mains.Server.{
  Main, Outside, new_server, bootstrap, add_service, run_forever, http_proxy, Listener, call,
  or_panic,
}

module _ (P : Pingora) where
  unfoldable pub upstream_peer : Call P (Unit {0}) (Unit {0}) (TunedPeer P)
  upstream_peer = do
    peer ← fixed_peer P ("172.28.0.23", 9001) true "grpc.pingora.local"
    pure (record peer { alpn = some h2 })

  -- The filter only logs the content type.
  unfoldable pub upstream_request_filter : Edit P (Unit {0}) (Unit {0}) (Unit {0})
  upstream_request_filter = pure tt

-- `main`
unfoldable pub main : (O : Outside) → Main O (Unit {0})
main O = do
  new_server O
  bootstrap O
  call O
      (λ n.
        or_panic "Failed to add TLS listener"
          (O.add_tls n "conf/keys/server.crt" "conf/keys/server.key"))
      []
  add_service O (
      http_proxy none
        (Listener.tls "0.0.0.0:6168" "conf/keys/server.crt" "conf/keys/server.key" ∷ []))
  run_forever O
