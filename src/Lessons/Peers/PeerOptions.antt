-- ===== src/Lessons/Peers/PeerOptions.antt =====
-- examples/19_peer_options.rs: timeouts of a peer, and the answer where they run out.
use pingora_guide.Base.{
  ℕ, ◌*◌, String, false, some, pure, gets, ◌>>=◌, ◌>>◌, unwrap_or_else, if◌then◌else◌, ◌==◌,
  string_eq, nat_eq,
}
use pingora_guide.Config.{Duration}
use pingora_guide.Error.{ErrorType, read_timedout, connect_timedout}
use pingora_guide.Pingora.{Pingora}
use pingora_guide.Gateway.Failures.{FailToProxy}
use pingora_guide.Lessons.Shared.{TunedPeer, Call, on_session, fixed_peer}
use pingora_guide.Base.{[], none, ◌∷◌}
use pingora_guide.Lessons.Mains.Server.{
  Main, Outside, new_server, bootstrap, add_service, run_forever, http_proxy, tcp,
}

-- Nanoseconds
abbrev millis : ℕ → Duration
millis n = n * 1000000

abbrev secs : ℕ → Duration
secs n = n * 1000000000

-- The address, the server name and the connection timeout of a path.
unfoldable pub plan_of : String → (String × ℕ) × String × Duration
plan_of path =
    if path == "/timeout"
    then (("192.0.2.1", 80), "blackhole.local", millis 100)
    else (("172.28.0.20", 8080), "blue.pingora.local", secs 2)

-- `match e.etype`
unfoldable pub error_code : ErrorType → ℕ
error_code connect_timedout = 504
error_code read_timedout = 504
error_code _ = 502

module _ (P : Pingora) where
  unfoldable pub upstream_peer : Call P (Unit {0}) (Unit {0}) (TunedPeer P)
  upstream_peer = do
    path ← gets (λ x. P.uri_path x.session)
    let (addr, sni, timeout) = plan_of path
    peer ← fixed_peer P addr false sni
    pure (record peer {
      connection_timeout = some (some timeout);
      read_timeout = some (some (secs 2));
    })

  unfoldable pub fail_to_proxy : P.Error → Call P (Unit {0}) (Unit {0}) FailToProxy
  fail_to_proxy e = do
    unwrap_or_else tt (on_session P (P.respond_error (error_code (P.etype e))))
    pure (record { error_code = error_code (P.etype e); can_reuse_downstream = false })

-- `main`
unfoldable pub main : (O : Outside) → Main O (Unit {0})
main O = do
  new_server O
  bootstrap O
  add_service O (http_proxy none (tcp "0.0.0.0:6163" ∷ []))
  run_forever O
