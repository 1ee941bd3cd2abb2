-- ===== src/Lessons/Peers/SimpleForward.antt =====
-- examples/06_simple_forward.rs: a proxy to one address.
use pingora_guide.Base.{false, unwrap_or_else, string_eq, nat_eq}
use pingora_guide.Pingora.{Pingora}
use pingora_guide.Lessons.Shared.{TunedPeer, Call, Edit, on_header, fixed_peer}
use pingora_guide.Base.{[], none, ◌>>◌, ◌∷◌}
use pingora_guide.Lessons.Mains.Server.{
  Main, Outside, new_server, bootstrap, add_service, run_forever, http_proxy, tcp,
}

module _ (P : Pingora) where
  unfoldable pub upstream_peer : Call P (Unit {0}) (Unit {0}) (TunedPeer P)
  upstream_peer = fixed_peer P ("172.28.0.20", 8080) false "blue.pingora.local"

  -- The result of `insert_header` is dropped.
  unfoldable pub upstream_request_filter : Edit P (Unit {0}) (Unit {0}) (Unit {0})
  upstream_request_filter =
      unwrap_or_else tt (on_header P (P.insert_header "Host" "blue.pingora.local"))

-- `main`
unfoldable pub main : (O : Outside) → Main O (Unit {0})
main O = do
  new_server O
  bootstrap O
  add_service O (http_proxy none (tcp "0.0.0.0:6146" ∷ []))
  run_forever O
