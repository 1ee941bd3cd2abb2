-- ===== src/Lessons/Limits/ConnectionFilter.antt =====
-- examples/39_connection_filter.rs: one address that is refused.
use pingora_guide.Base.{
  String, Bool, false, Option, none, some, pure, expect, ◌>>=◌, if◌then◌else◌, string_eq, nat_eq,
}
use pingora_guide.Pingora.{Pingora}
use pingora_guide.Lessons.Shared.{TunedPeer, Call, balanced_peer, refuse, client_ip}
use pingora_guide.Base.{List, [], ◌>>◌, ◌∷◌}
use pingora_guide.Lessons.Mains.Server.{
  Main, Outside, new_server, bootstrap, add_service, run_forever, http_proxy, tcp, try_from_iter,
  pool_of, evenly,
}

-- `str::parse::<IpAddr>` and the equality of addresses
module _ (P : Pingora) (parse_ip : String → Option P.IpAddr)
    (same_ip : P.IpAddr → P.IpAddr → Bool) where
  unfoldable pub request_filter : Call P P.LoadBalancer (Unit {0}) Bool
  request_filter = do
    client ← client_ip P
    elim client [
      | none ↦ pure false
      | some addr ↦ do
        bad_actor_ip ← expect (parse_ip "172.28.0.31") "called `Result::unwrap()` on an `Err` value"
        if same_ip addr bad_actor_ip then refuse P 403 else pure false
    ]

  unfoldable pub upstream_peer : Call P P.LoadBalancer (Unit {0}) (TunedPeer P)
  upstream_peer x = balanced_peer P x.shared "firewall.cluster" x

-- `main`
unfoldable pub main : (O : Outside) → Main O (Unit {0})
main O = do
  new_server O
  bootstrap O
  let addresses : List String = "172.28.0.20:8080" ∷ "172.28.0.21:8080" ∷ []
  try_from_iter O addresses
  add_service O (http_proxy (some (pool_of (evenly addresses))) (tcp "0.0.0.0:6183" ∷ []))
  run_forever O
