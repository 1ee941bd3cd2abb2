-- ===== src/Lessons/Peers/ConnectionReuse.antt =====
-- examples/25_connection_reuse.rs: idle connections.
use pingora_guide.Base.{Bool, false, some, pure, ◌>>=◌, string_eq, nat_eq}
use pingora_guide.Pingora.{Pingora}
use pingora_guide.Lessons.Shared.{TunedPeer, Call, set_ctx, fixed_peer}
use pingora_guide.Base.{[], none, ◌>>◌, ◌∷◌}
use pingora_guide.Lessons.Mains.Server.{
  Main, Outside, new_server, bootstrap, add_service, run_forever, http_proxy, tcp,
}

module _ (P : Pingora) where
  -- The context is `ReusingCtx`, one flag.
  abbrev pub new_ctx : Bool
  new_ctx = false

  unfoldable pub upstream_peer : Call P (Unit {0}) Bool (TunedPeer P)
  upstream_peer = do
    peer ← fixed_peer P ("172.28.0.20", 8080) false "blue.pingora.local"
    pure (record peer {
      idle_timeout = some (some 30000000000);
      connection_timeout = some (some 1000000000);
    })

  unfoldable pub connected_to_upstream : Bool → Call P (Unit {0}) Bool (Unit {0})
  connected_to_upstream reused = set_ctx P reused

-- `main`
unfoldable pub main : (O : Outside) → Main O (Unit {0})
main O = do
  new_server O
  bootstrap O
  add_service O (http_proxy none (tcp "0.0.0.0:6169" ∷ []))
  run_forever O
