-- ===== src/Lessons/Peers/HeaderManipulation.antt =====
-- examples/08_header_manipulation.rs: headers on the way in and out.
use pingora_guide.Base.{false, ◌>>◌, string_eq, nat_eq}
use pingora_guide.Pingora.{Pingora}
use pingora_guide.Lessons.Shared.{TunedPeer, Call, Edit, on_header, edit, fixed_peer}
use pingora_guide.Base.{[], none, ◌∷◌}
use pingora_guide.Lessons.Mains.Server.{
  Main, Outside, new_server, bootstrap, add_service, run_forever, http_proxy, tcp,
}

module _ (P : Pingora) where
  unfoldable pub upstream_peer : Call P (Unit {0}) (Unit {0}) (TunedPeer P)
  upstream_peer = fixed_peer P ("172.28.0.21", 8080) false "green.pingora.local"

  unfoldable pub upstream_request_filter : Edit P (Unit {0}) (Unit {0}) (Unit {0})
  upstream_request_filter = do
    on_header P (P.insert_header "Host" "green.pingora.local")
    on_header P (P.insert_header "X-Pingora-Proxy" "true")
    edit P (P.remove_header "User-Agent")

  unfoldable pub response_filter : Edit P (Unit {0}) (Unit {0}) (Unit {0})
  response_filter = on_header P (P.insert_header "X-Edited-By" "Pingora")

-- `main`
unfoldable pub main : (O : Outside) → Main O (Unit {0})
main O = do
  new_server O
  bootstrap O
  add_service O (http_proxy none (tcp "0.0.0.0:6148" ∷ []))
  run_forever O
