-- ===== src/Lessons/Balancing/RoundRobin.antt =====
-- examples/26_round_robin.rs: backends in turn.
use pingora_guide.Base.{string_eq, nat_eq}
use pingora_guide.Pingora.{Pingora}
use pingora_guide.Lessons.Shared.{TunedPeer, Call, Edit, on_header, balanced_peer}
use pingora_guide.Base.{List, String, [], some, ◌>>◌, ◌∷◌}
use pingora_guide.Lessons.Mains.Server.{
  Main, Outside, new_server, bootstrap, add_service, run_forever, background, balancer, http_proxy,
  tcp, try_from_iter, pool_of, evenly,
}

module _ (P : Pingora) where
  unfoldable pub upstream_peer : Call P P.LoadBalancer (Unit {0}) (TunedPeer P)
  upstream_peer x = balanced_peer P x.shared "upstream" x

  unfoldable pub upstream_request_filter : Edit P P.LoadBalancer (Unit {0}) (Unit {0})
  upstream_request_filter = on_header P (P.insert_header "Host" "round-robin-cluster")

-- `main`
unfoldable pub main : (O : Outside) → Main O (Unit {0})
main O = do
  new_server O
  bootstrap O
  let addresses : List String = "172.28.0.20:8080" ∷ "172.28.0.21:8080" ∷ []
  try_from_iter O addresses
  let upstreams = pool_of (evenly addresses)
  add_service O (background "round_robin_lb" (balancer upstreams))
  add_service O (http_proxy (some upstreams) (tcp "0.0.0.0:6170" ∷ []))
  run_forever O
