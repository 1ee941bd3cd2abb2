-- ===== src/Lessons/Peers/SniRouting.antt =====
-- examples/20_sni_routing.rs: the server name by the path.
use pingora_guide.Base.{
  String, Bool, true, false, pure, gets, ◌>>=◌, ◌>>◌, if◌then◌else◌, string_eq, nat_eq,
}
use pingora_guide.Base.Text.{nil, starts_with}
use pingora_guide.Pingora.{Pingora}
use pingora_guide.Lessons.Shared.{TunedPeer, Call, Edit, set_ctx, on_header, fixed_peer}
use pingora_guide.Base.{[], none, ◌∷◌}
use pingora_guide.Lessons.Mains.Server.{
  Main, Outside, new_server, bootstrap, add_service, run_forever, http_proxy, tcp,
}

module _ (P : Pingora) where
  -- The context is `SniCtx`, one text.
  abbrev pub new_ctx : String
  new_ctx = nil

  unfoldable pub request_filter : Call P (Unit {0}) String Bool
  request_filter = do
    path ← gets (λ x. P.uri_path x.session)
    set_ctx P (if starts_with path "/v1" then "v1.api.pingora.local" else "v2.api.pingora.local")
    pure false

  unfoldable pub upstream_peer : Call P (Unit {0}) String (TunedPeer P)
  upstream_peer = do sni ← gets (λ x. x.ctx); fixed_peer P ("172.28.0.22", 443) true sni

  unfoldable pub upstream_request_filter : Edit P (Unit {0}) String (Unit {0})
  upstream_request_filter = do
    target_host ← gets (λ s. s.0.ctx)
    on_header P (P.insert_header "Host" target_host)

-- `main`
unfoldable pub main : (O : Outside) → Main O (Unit {0})
main O = do
  new_server O
  bootstrap O
  add_service O (http_proxy none (tcp "0.0.0.0:6164" ∷ []))
  run_forever O
