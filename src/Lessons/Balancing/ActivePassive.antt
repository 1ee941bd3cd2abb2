-- ===== src/Lessons/Balancing/ActivePassive.antt =====
-- examples/33_active_passive_lb.rs: a backup where the pool is empty.
use pingora_guide.Base.{false, none, some, pure, gets, ◌>>=◌, string_eq, nat_eq}
use pingora_guide.Pingora.{Pingora}
use pingora_guide.Lessons.Shared.{TunedPeer, untuned, Call, Edit, on_header, draw, fixed_peer}
use pingora_guide.Base.{List, String, [], ◌>>◌, ◌∷◌}
use pingora_guide.Lessons.Mains.Server.{
  Main, Outside, new_server, bootstrap, add_service, run_forever, background, balancer, http_proxy,
  tcp, try_from_iter, pool_of, evenly, checked, tcp_check,
}

module _ (P : Pingora) where
  unfoldable pub upstream_peer : Call P P.LoadBalancer (Unit {0}) (TunedPeer P)
  upstream_peer = do
    pool ← gets (λ x. x.shared)
    call ← draw P
    elim (P.select call pool "" 256) [
      | some upstream ↦
          pure (record (untuned P (P.new_peer upstream false "primary.cluster.local")) {
            read_timeout = some (some 1000000000);
            connection_timeout = some (some 1000000000);
          })
      | none ↦ fixed_peer P ("172.28.0.21", 8080) false "backup.cluster.local"
    ]

  unfoldable pub upstream_request_filter : Edit P P.LoadBalancer (Unit {0}) (Unit {0})
  upstream_request_filter = on_header P (P.insert_header "Host" "active-passive-cluster")

-- `main`
unfoldable pub main : (O : Outside) → Main O (Unit {0})
main O = do
  new_server O
  bootstrap O
  let addresses : List String = "172.28.0.20:8080" ∷ []
  try_from_iter O addresses
  let upstreams = checked (tcp_check 1000000000 1 1) (pool_of (evenly addresses))
  add_service O (background "primary_pool_lb" (balancer upstreams))
  add_service O (http_proxy (some upstreams) (tcp "0.0.0.0:6177" ∷ []))
  run_forever O
