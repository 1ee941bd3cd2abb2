-- ===== src/Lessons/Caching/CacheControl.antt =====
-- examples/44_cache_control.rs: what the upstream says of its answers.
use pingora_guide.Base.{◌+◌, String, false, none, pure, if◌then◌else◌, string_eq, nat_eq}
use pingora_guide.Base.Text.{◌<>◌}
use pingora_guide.Base.Text.Search.{text_len, contains}
use pingora_guide.Pingora.{Pingora}
use pingora_guide.Lessons.Caching.Calls.{CacheCalls, CacheMetaDefaults, enable_for_path}
use pingora_guide.Lessons.Shared.{TunedPeer, Call, fixed_peer}
use pingora_guide.Base.{[], ◌>>◌, ◌∷◌}
use pingora_guide.Lessons.Mains.Server.{
  Main, Outside, new_server, bootstrap, add_service, run_forever, note, dictionary_set, spawn,
  http_proxy, tcp,
}
use pingora_guide.Base.{List, Option, Outcome, map}
use pingora_guide.Lessons.Shared.Mock.{accepted, bound, no_listener}

module _ (P : Pingora) (K : CacheCalls P) where
  unfoldable pub request_cache_filter : Call P (Unit {0}) (Unit {0}) (Unit {0})
  request_cache_filter = enable_for_path P K false

  unfoldable pub upstream_peer : Call P (Unit {0}) (Unit {0}) (TunedPeer P)
  upstream_peer = fixed_peer P ("127.0.0.1", 6193) false "header.test.local"

  abbrev pub defaults : CacheMetaDefaults
  defaults = record { fresh = λ status. none; stale_while_revalidate = 0; stale_if_error = 0 }

  unfoldable pub response_cache_filter : P.Header → Call P (Unit {0}) (Unit {0}) K.RespCacheable
  response_cache_filter resp =
      pure (K.resp_cacheable (K.from_resp_headers resp) resp false defaults)

  -- The mock upstream chooses a policy by the path.
  unfoldable pub cc_header : String → String
  cc_header req =
      if contains req "GET /short"
      then "max-age=5"
      else if contains req "GET /long"
      then "max-age=60"
      else if contains req "GET /no_store"
      then "no-store"
      else "max-age=10"

  unfoldable pub mock_response : String → String
  mock_response req =
      let body = "Content for " <> cc_header req in
      "HTTP/1.1 200 OK\r\nContent-Length: "
      <> P.usize_to_string (text_len body + 1)
      <> "\r\nCache-Control: "
      <> cc_header req
      <> "\r\nConnection: close\r\n\r\n"
      <> body
      <> "\n"

  -- The mock upstream, over the connections to it.
  unfoldable pub run_dynamic_upstream :
      Outcome String (Unit {0}) → List (Option String) → Outcome String (List String)
  run_dynamic_upstream listener connections =
      bound no_listener listener (map (mock_response) (accepted connections))

-- `main`
unfoldable pub main : (O : Outside) → Main O (Unit {0})
main O = do
  note O dictionary_set
  new_server O
  bootstrap O
  spawn O "run_dynamic_upstream"
  add_service O (http_proxy none (tcp "0.0.0.0:6192" ∷ []))
  run_forever O
