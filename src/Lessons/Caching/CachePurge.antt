-- ===== src/Lessons/Caching/CachePurge.antt =====
-- examples/46_cache_purge.rs: a method that removes an entry.
use pingora_guide.Base.{String, Bool, false, none, pure, ◌==◌, string_eq, nat_eq}
use pingora_guide.Base.Text.{◌<>◌}
use pingora_guide.Base.Text.Search.{text_len}
use pingora_guide.Pingora.{Pingora}
use pingora_guide.Lessons.Caching.Calls.{CacheCalls, CacheMetaDefaults, enable_for_path}
use pingora_guide.Lessons.Shared.{TunedPeer, Call, fixed_peer}
use pingora_guide.Base.{[], ◌>>◌, ◌∷◌}
use pingora_guide.Lessons.Mains.Server.{
  Main, Outside, new_server, bootstrap, add_service, run_forever, note, dictionary_set, spawn,
  http_proxy, tcp,
}
use pingora_guide.Base.{List, Option, Outcome, map}
use pingora_guide.Lessons.Shared.Mock.{accepted, bound, no_listener}

module _ (P : Pingora) (K : CacheCalls P) where
  unfoldable pub request_cache_filter : Call P (Unit {0}) (Unit {0}) (Unit {0})
  request_cache_filter = enable_for_path P K false

  unfoldable pub upstream_peer : Call P (Unit {0}) (Unit {0}) (TunedPeer P)
  upstream_peer = fixed_peer P ("127.0.0.1", 6197) false "purge.local"

  abbrev pub defaults : CacheMetaDefaults
  defaults = record { fresh = λ status. none; stale_while_revalidate = 0; stale_if_error = 0 }

  unfoldable pub response_cache_filter : P.Header → Call P (Unit {0}) (Unit {0}) K.RespCacheable
  response_cache_filter resp =
      pure (K.resp_cacheable (K.from_resp_headers resp) resp false defaults)

  unfoldable pub is_purge : P.Session → Bool
  is_purge session = P.method session == "PURGE"

  unfoldable pub mock_response : String
  mock_response =
      let body : String = "Cached Content (TTL 300s)" in
      "HTTP/1.1 200 OK\r\nContent-Length: "
      <> P.usize_to_string (text_len body)
      <> "\r\nCache-Control: public, max-age=300\r\nConnection: close\r\n\r\n"
      <> body

  -- The mock upstream, over the connections to it.
  unfoldable pub run_upstream :
      Outcome String (Unit {0}) → List (Option String) → Outcome String (List String)
  run_upstream listener connections =
      bound no_listener listener (map (λ req. mock_response) (accepted connections))

-- `main`
unfoldable pub main : (O : Outside) → Main O (Unit {0})
main O = do
  note O dictionary_set
  new_server O
  bootstrap O
  spawn O "run_upstream"
  add_service O (http_proxy none (tcp "0.0.0.0:6196" ∷ []))
  run_forever O
