-- ===== src/Lessons/Balancing/WeightedLb.antt =====
-- examples/27_weighted_lb.rs: backends in turn, by weight.
use pingora_guide.Base.{string_eq, nat_eq}
use pingora_guide.Pingora.{Pingora}
use pingora_guide.Lessons.Shared.{TunedPeer, Call, Edit, on_header, balanced_peer}
use pingora_guide.Base.{[], some, ◌>>◌, ◌∷◌}
use pingora_guide.Lessons.Mains.Server.{
  Main, Outside, new_server, bootstrap, add_service, run_forever, background, balancer, http_proxy,
  tcp, call, pool_of, fixed,
}

module _ (P : Pingora) where
  unfoldable pub upstream_peer : Call P P.LoadBalancer (Unit {0}) (TunedPeer P)
  upstream_peer x = balanced_peer P x.shared "weighted.upstream" x

  unfoldable pub upstream_request_filter : Edit P P.LoadBalancer (Unit {0}) (Unit {0})
  upstream_request_filter = on_header P (P.insert_header "Host" "weighted-cluster")

-- `main`
unfoldable pub main : (O : Outside) → Main O (Unit {0})
main O = do
  new_server O
  bootstrap O
  call O (λ n. O.new_with_weight n "172.28.0.20:8080" 3) []
  call O (λ n. O.new_with_weight n "172.28.0.21:8080" 1) []
  let upstreams = pool_of (fixed (("172.28.0.20:8080", 3) ∷ ("172.28.0.21:8080", 1) ∷ []))
  add_service O (background "weighted_lb" (balancer upstreams))
  add_service O (http_proxy (some upstreams) (tcp "0.0.0.0:6171" ∷ []))
  run_forever O
