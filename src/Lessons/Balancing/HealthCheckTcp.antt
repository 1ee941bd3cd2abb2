-- ===== src/Lessons/Balancing/HealthCheckTcp.antt =====
-- examples/30_health_check_tcp.rs: a pool with TCP checks.
use pingora_guide.Base.{false, some, pure, ◌>>=◌, string_eq, nat_eq}
use pingora_guide.Pingora.{Pingora}
use pingora_guide.Lessons.Shared.{TunedPeer, untuned, Call, Edit, on_header, select_backend}
use pingora_guide.Base.{List, String, [], ◌>>◌, ◌∷◌}
use pingora_guide.Lessons.Mains.Server.{
  Main, Outside, new_server, bootstrap, add_service, run_forever, background, balancer, http_proxy,
  tcp, try_from_iter, pool_of, evenly, checked, tcp_check,
}

module _ (P : Pingora) where
  unfoldable pub upstream_peer : Call P P.LoadBalancer (Unit {0}) (TunedPeer P)
  upstream_peer x =
      (do
        upstream ← select_backend P x.shared "" "All upstreams are down"
        pure (record (untuned P (P.new_peer upstream false "health-check.cluster")) {
          read_timeout = some (some 1000000000);
          connection_timeout = some (some 1000000000);
        }))
        x

  unfoldable pub upstream_request_filter : Edit P P.LoadBalancer (Unit {0}) (Unit {0})
  upstream_request_filter = on_header P (P.insert_header "Host" "health-check-cluster")

-- `main`
unfoldable pub main : (O : Outside) → Main O (Unit {0})
main O = do
  new_server O
  bootstrap O
  let addresses : List String = "172.28.0.20:8080" ∷ "172.28.0.21:8080" ∷ []
  try_from_iter O addresses
  let upstreams = checked (tcp_check 1000000000 1 1) (pool_of (evenly addresses))
  add_service O (background "health_check_lb" (balancer upstreams))
  add_service O (http_proxy (some upstreams) (tcp "0.0.0.0:6174" ∷ []))
  run_forever O
