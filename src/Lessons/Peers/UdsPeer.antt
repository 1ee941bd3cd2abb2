-- ===== src/Lessons/Peers/UdsPeer.antt =====
-- examples/18_uds_peer.rs: a peer at a Unix socket.
use pingora_guide.Base.{false, pure, lift, ◌>>=◌, string_eq, nat_eq}
use pingora_guide.Pingora.{Pingora}
use pingora_guide.Lessons.Shared.{TunedPeer, untuned, Call}
use pingora_guide.Base.{[], none, ◌>>◌, ◌∷◌}
use pingora_guide.Lessons.Mains.Server.{
  Main, Outside, new_server, bootstrap, add_service, run_forever, spawn, http_proxy, tcp,
}
use pingora_guide.Base.{List, Option, Outcome, String, map}
use pingora_guide.Lessons.Shared.Mock.{accepted, bound}

module _ (P : Pingora) where
  unfoldable pub upstream_peer : Call P (Unit {0}) (Unit {0}) (TunedPeer P)
  upstream_peer = do
    base ← lift (λ e. e) (P.new_uds "/tmp/upstream.sock" false "uds.local")
    pure (untuned P base)

-- The mock upstream, over the connections to it.
abbrev pub uds_response : String
uds_response = "HTTP/1.1 200 OK\r\nContent-Length: 13\r\nConnection: close\r\n\r\nHello via UDS"

unfoldable pub run_mock_uds_server :
    Outcome String (Unit {0}) → List (Option String) → Outcome String (List String)
run_mock_uds_server listener connections =
    bound "Failed to bind UDS" listener (map (λ req. uds_response) (accepted connections))

-- `main`
unfoldable pub main : (O : Outside) → Main O (Unit {0})
main O = do
  new_server O
  bootstrap O
  spawn O "run_mock_uds_server(/tmp/upstream.sock)"
  add_service O (http_proxy none (tcp "0.0.0.0:6162" ∷ []))
  run_forever O
