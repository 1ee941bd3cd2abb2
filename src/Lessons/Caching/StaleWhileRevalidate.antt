-- ===== src/Lessons/Caching/StaleWhileRevalidate.antt =====
-- examples/47_stale_while_revalidate.rs: stale answers while a new one is fetched.
use pingora_guide.Base.{
  ℕ, ◌+◌, ◌%◌, ◌^◌, String, Bool, true, false, Option, none, some, pure, if◌then◌else◌, ◌==◌,
  string_eq, nat_eq,
}
use pingora_guide.Base.Text.{◌<>◌}
use pingora_guide.Base.Text.Search.{text_len}
use pingora_guide.Pingora.{Pingora}
use pingora_guide.Lessons.Caching.Calls.{CacheCalls, CacheMetaDefaults, enable_for_path}
use pingora_guide.Lessons.Shared.{TunedPeer, Call, fixed_peer}
use pingora_guide.Base.{[], ◌>>◌, ◌∷◌}
use pingora_guide.Lessons.Mains.Server.{
  Main, Outside, new_server, bootstrap, add_service, run_forever, note, dictionary_set, spawn,
  http_proxy, tcp,
}
use pingora_guide.Base.{List, Outcome}
use pingora_guide.Lessons.Shared.Mock.{accepted, bound, no_listener}

module _ (P : Pingora) (K : CacheCalls P) where
  unfoldable pub request_cache_filter : Call P (Unit {0}) (Unit {0}) (Unit {0})
  request_cache_filter = enable_for_path P K true

  unfoldable pub upstream_peer : Call P (Unit {0}) (Unit {0}) (TunedPeer P)
  upstream_peer = fixed_peer P ("127.0.0.1", 6199) false "swr.local"

  abbrev pub defaults : CacheMetaDefaults
  defaults = record {
    fresh = λ status. if status == 200 then some 5000000000 else none;
    stale_while_revalidate = 10;
    stale_if_error = 0;
  }

  unfoldable pub response_cache_filter : P.Header → Call P (Unit {0}) (Unit {0}) K.RespCacheable
  response_cache_filter resp =
      pure (K.resp_cacheable (K.from_resp_headers resp) resp false defaults)

  -- An error is answered by no stale entry.
  unfoldable pub should_serve_stale : Option P.Error → Bool
  should_serve_stale none = true
  should_serve_stale (some e) = false

  -- The answer of the mock upstream, and the version behind it.
  unfoldable pub mock_response : ℕ → String × ℕ
  mock_response content_version =
      let version = (content_version + 1) % 2 ^ 64 in
      let body = "Content Version " <> P.usize_to_string version in
      (
        "HTTP/1.1 200 OK\r\nContent-Length: "
            <> P.usize_to_string (text_len body)
            <> "\r\nCache-Control: public, max-age=5, stale-while-revalidate=10\r\nConnection: close\r\n\r\n"
            <> body,
        version,
      )

  -- The mock upstream, over the connections to it in the order in which their tasks take a version.
  abbrev answers : List String → ℕ → List String × ℕ
  answers [] version = ([], version)
  answers (req ∷ reqs) version =
      let (response, next) = mock_response version in
      let (rest, last) = answers reqs next in (response ∷ rest, last)

  unfoldable pub run_slow_upstream :
      Outcome String (Unit {0}) → List (Option String) → ℕ → Outcome String (List String × ℕ)
  run_slow_upstream listener connections version =
      bound no_listener listener (answers (accepted connections) version)

-- `main`
unfoldable pub main : (O : Outside) → Main O (Unit {0})
main O = do
  note O dictionary_set
  new_server O
  bootstrap O
  spawn O "run_slow_upstream"
  add_service O (http_proxy none (tcp "0.0.0.0:6198" ∷ []))
  run_forever O
