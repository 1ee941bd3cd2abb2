-- ===== src/Lessons/Peers/DnsPeer.antt =====
-- examples/17_dns_peer.rs: a peer that is looked up for each request.
use pingora_guide.Base.{String, Bool, false, [], ◌∷◌, pure, throw, lift, ◌>>=◌, string_eq, nat_eq}
use pingora_guide.Error.{custom}
use pingora_guide.Pingora.{Pingora}
use pingora_guide.Lessons.Shared.{TunedPeer, untuned, Call, draw}
use pingora_guide.Base.{none, ◌>>◌}
use pingora_guide.Lessons.Mains.Server.{
  Main, Outside, new_server, bootstrap, add_service, run_forever, http_proxy, tcp,
}

-- `HttpPeer::new` for an address that is resolved already
module _ (P : Pingora) (peer_at : P.InetAddr → Bool → String → P.HttpPeer) where
  unfoldable pub upstream_peer : Call P (Unit {0}) (Unit {0}) (TunedPeer P)
  upstream_peer = do
    call ← draw P
    addrs ←
        lift (λ _. P.new_error (custom "DNSResolutionFailed"))
          (P.lookup_host call "blue.pingora.local:8080")
    elim addrs [
      | [] ↦ throw (P.new_error (custom "DNSNoRecords"))
      | addr ∷ rest ↦ pure (untuned P (peer_at addr false "blue.pingora.local"))
    ]

-- `main`
unfoldable pub main : (O : Outside) → Main O (Unit {0})
main O = do
  new_server O
  bootstrap O
  add_service O (http_proxy none (tcp "0.0.0.0:6161" ∷ []))
  run_forever O
