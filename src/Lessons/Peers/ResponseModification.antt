-- ===== src/Lessons/Peers/ResponseModification.antt =====
-- examples/11_response_modification.rs: headers of a response.
use pingora_guide.Base.{
  String, false, Option, none, some, pure, gets, ◌>>=◌, ◌>>◌, string_eq, nat_eq,
}
use pingora_guide.Pingora.{Pingora}
use pingora_guide.Lessons.Shared.{TunedPeer, Call, Edit, on_header, edit, fixed_peer}
use pingora_guide.Base.{[], ◌∷◌}
use pingora_guide.Lessons.Mains.Server.{
  Main, Outside, new_server, bootstrap, add_service, run_forever, http_proxy, tcp,
}

module _ (P : Pingora) where
  unfoldable pub upstream_peer : Call P (Unit {0}) (Unit {0}) (TunedPeer P)
  upstream_peer = fixed_peer P ("172.28.0.20", 8080) false "blue.pingora.local"

  -- The value of a header of the response, as the text that is inserted again.
  module _ (header_value : String → P.Header → Option String) where
    unfoldable pub response_filter : Edit P (Unit {0}) (Unit {0}) (Unit {0})
    response_filter = do
      edit P (P.remove_header "X-App-Version")
      on_header P (P.insert_header "X-Content-Type-Options" "nosniff")
      date ← gets (λ s. header_value "Date" s.1)
      elim date [
        | none ↦ pure tt
        | some date_val ↦ on_header P (P.insert_header "X-Legacy-Date" date_val)
      ]

-- `main`
unfoldable pub main : (O : Outside) → Main O (Unit {0})
main O = do
  new_server O
  bootstrap O
  add_service O (http_proxy none (tcp "0.0.0.0:6151" ∷ []))
  run_forever O
