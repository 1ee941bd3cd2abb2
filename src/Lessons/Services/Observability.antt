-- ===== src/Lessons/Services/Observability.antt =====
-- examples/48_observability.rs: a counter and a histogram of requests.
use pingora_guide.Base.{
  ℕ, ◌+◌, ◌-◌, ◌%◌, ◌^◌, String, false, List, ◌∷◌, ok, ◌>>=◌, if◌then◌else◌, ◌==◌, string_eq,
  nat_eq,
}
use pingora_guide.Base.Text.{◌<>◌}
use pingora_guide.Base.Text.Search.{text_len}
use pingora_guide.Config.{Duration}
use pingora_guide.Pingora.{Pingora}
use pingora_guide.Lessons.Shared.{TunedPeer, Call, fixed_peer}
use pingora_guide.Base.{[], none, ◌>>◌}
use pingora_guide.Lessons.Mains.Server.{
  Main, Outside, new_server, bootstrap, add_service, run_forever, spawn, http_proxy, prometheus,
  tcp, call, or_panic, unwrapped,
}
use pingora_guide.Base.{Option, Outcome, map}
use pingora_guide.Lessons.Shared.Mock.{accepted, bound, no_listener}

module _ (P : Pingora) where
  -- The static counter, and the two metrics of the service: a count, and the durations observed.
  pub record Globals : Type 0 where
    pub request_counter : ℕ
    pub req_counter : ℕ
    pub req_histogram : List Duration

  -- `MetricsContext::start_time`
  abbrev pub new_ctx : ℕ → ℕ
  new_ctx now = now

  abbrev fetch_add : Call P Globals ℕ ℕ
  fetch_add x = (
    ok x.shared.request_counter,
    record x {
      shared = record x.shared { request_counter = (x.shared.request_counter + 1) % 2 ^ 64 };
    },
  )

  unfoldable pub address_of : ℕ → String × ℕ
  address_of count = if count % 2 == 0 then ("127.0.0.1", 6201) else ("127.0.0.1", 6202)

  unfoldable pub upstream_peer : Call P Globals ℕ (TunedPeer P)
  upstream_peer = do count ← fetch_add; fixed_peer P (address_of count) false "metrics.local"

  -- `now` is the instant of the call; `elapsed` is not below zero.
  unfoldable pub logging : ℕ → Call P Globals ℕ (Unit {0})
  logging now x = (
    ok tt,
    record x {
      shared = record x.shared {
        req_counter = x.shared.req_counter + 1;
        req_histogram = (now - x.ctx) ∷ x.shared.req_histogram;
      };
    },
  )

  -- The answer of the mock upstream: its length counts the line feed.
  unfoldable pub mock_response : String → String
  mock_response name =
      let body = "Response from " <> name in
      "HTTP/1.1 200 OK\r\nContent-Length: "
      <> P.usize_to_string (text_len body + 1)
      <> "\r\nConnection: close\r\n\r\n"
      <> body
      <> "\n"

  -- The mock upstream of a name, over the connections to it.
  unfoldable pub run_mock_upstream :
      String → Outcome String (Unit {0}) → List (Option String) → Outcome String (List String)
  run_mock_upstream name listener connections =
      bound no_listener listener (map (λ req. mock_response name) (accepted connections))

-- `main`
unfoldable pub main : (O : Outside) → Main O (Unit {0})
main O = do
  new_server O
  bootstrap O
  spawn O "run_mock_upstream"
  call O (λ n. or_panic unwrapped (O.register_metric n "http_requests_total")) []
  call O (λ n. or_panic unwrapped (O.register_metric n "http_request_duration_seconds")) []
  add_service O (http_proxy none (tcp "0.0.0.0:6199" ∷ []))
  add_service O (prometheus (tcp "0.0.0.0:6200" ∷ []))
  run_forever O
