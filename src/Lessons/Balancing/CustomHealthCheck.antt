-- ===== src/Lessons/Balancing/CustomHealthCheck.antt =====
-- examples/32_custom_health_check.rs: a check of the body that a backend sends.
pub mod Healthy
use pingora_guide.Base.{
  ℕ, String, Bool, false, none, some, Outcome, ok, err, panic, Act, pure, throw, map_err, ◌>>=◌,
  ◌>>◌, if◌then◌else◌, string_eq, nat_eq,
}
use pingora_guide.Base.Text.{◌<>◌}
use pingora_guide.Base.Text.Search.{contains}
use pingora_guide.Error.{custom, internal_error, read_timedout, connect_timedout, write_error}
use pingora_guide.Pingora.{Pingora}
use pingora_guide.Lessons.Shared.Tcp.{Tcp}
use pingora_guide.Lessons.Shared.{TunedPeer, untuned, Call, Edit, on_header, select_backend}
use pingora_guide.Base.{List, [], ◌∷◌}
use pingora_guide.Lessons.Mains.Server.{
  Main, Outside, new_server, bootstrap, add_service, run_forever, background, balancer, http_proxy,
  tcp, try_from_iter, pool_of, evenly, checked, body_check,
}

pub record BodyMatchCheck : Type 0 where
  pub host : String
  pub expected_string : String

unfoldable pub request_of : String → String
request_of host = "GET / HTTP/1.1\r\nHost: " <> host <> "\r\nConnection: close\r\n\r\n"

module _ (P : Pingora) where
  -- The dialogue on the stream that is connected; a read within a second gives the text of what came.
  module _ (T : Tcp P.InetAddr) where
    unfoldable pub talk : BodyMatchCheck → Act T.Socket P.Error (Unit {0})
    talk self = do
      map_err (P.explain write_error) (T.write_all (request_of self.host))
      response_text ←
          map_err (λ _. P.explain read_timedout "Read timed out") (T.read_within 1000000000 1024)
      if contains response_text self.expected_string
          then pure tt
          else throw (P.explain (custom "InvalidBody") "Body validation failed")

    unfoldable pub check : BodyMatchCheck → P.Backend → ℕ → Outcome P.Error (Unit {0})
    check self target call = elim (P.as_inet (P.backend_addr target)) [
      | none ↦ err (P.explain internal_error "Custom check only supports TCP backends")
      | some addr ↦ elim (T.connect_within 1000000000 call addr) [
        | ok stream ↦ (talk self stream).0
        | err e ↦ err (P.explain connect_timedout "Connection timed out")
        | panic message ↦ panic message
      ]
    ]

  abbrev pub health_threshold : Bool → ℕ
  health_threshold success = 1

  unfoldable pub upstream_peer : Call P P.LoadBalancer (Unit {0}) (TunedPeer P)
  upstream_peer x =
      (do
        upstream ← select_backend P x.shared "" "All upstreams are down"
        pure (untuned P (P.new_peer upstream false "custom-check.cluster.local")))
        x

  unfoldable pub upstream_request_filter : Edit P P.LoadBalancer (Unit {0}) (Unit {0})
  upstream_request_filter = on_header P (P.insert_header "Host" "custom-check-cluster")

-- `main`
unfoldable pub main : (O : Outside) → Main O (Unit {0})
main O = do
  new_server O
  bootstrap O
  let addresses : List String = "172.28.0.20:8080" ∷ "172.28.0.21:8080" ∷ []
  try_from_iter O addresses
  let upstreams = checked (body_check "localhost" "BLUE") (pool_of (evenly addresses))
  add_service O (background "custom_health_check" (balancer upstreams))
  add_service O (http_proxy (some upstreams) (tcp "0.0.0.0:6176" ∷ []))
  run_forever O
