-- ===== src/Lessons/QueryParams.antt =====
-- examples/10_query_params.rs: the query that goes upstream.
use pingora_guide.Base.{
  ◌≡◌, refl, String, Bool, true, false, not, ◌&&◌, Option, List, [], ◌∷◌, ◌++◌, pure, expect, ◌>>=◌,
  ◌>>◌, gets, unwrap_or, All, nat_eq, string_eq,
}
use pingora_guide.Base.Text.{◌<>◌, split, starts_with}
use pingora_guide.Base.Text.Laws.{Lacks, lacks-Lacks}
use pingora_guide.Base.Text.Search.{
  is_empty, join, filter, split-join_last, split-Lacks, filter-All, filter-holds,
}
use pingora_guide.Pingora.{Pingora}
use pingora_guide.Lessons.Shared.{TunedPeer, untuned, Call, Edit, on_header, edit, connect_to}
use pingora_guide.Base.{none, arith}
use pingora_guide.Lessons.Mains.Server.{
  Main, Outside, new_server, bootstrap, add_service, run_forever, http_proxy, tcp,
}

-- The filter's test of one part.
unfoldable pub kept : String → Bool
kept part = not (is_empty part) && not (starts_with part "debug=")

-- The parts that are joined to the new query.
unfoldable pub params : String → List String
params query = filter kept (split b'&' query) ++ "ref=pingora" ∷ []

unfoldable pub new_query : String → String
new_query query = join "&" (params query)

module _ (P : Pingora) where
  open P use {insert_header}

  unfoldable pub upstream_peer : Call P (Unit {0}) (Unit {0}) (TunedPeer P)
  upstream_peer x =
      (do
        base ← connect_to P ("172.28.0.20", 8080) false "blue.pingora.local"
        pure (untuned P base))
        x

  -- `http::Uri`: the path and the query of a header's URI, and that URI replaced by a text, if it parses.
  module _ (uri_path : P.Header → String) (uri_query : P.Header → Option String)
      (set_uri : String → P.Header → Option P.Header) where
    unfoldable pub upstream_request_filter : Edit P (Unit {0}) (Unit {0}) (Unit {0})
    upstream_request_filter = do
      path ← gets (λ s. uri_path s.1)
      query ← gets (λ s. unwrap_or "" (uri_query s.1))
      h ← gets (λ s. s.1)
      new_uri ← expect (set_uri (path <> "?" <> new_query query) h) "Failed to parse new URI"
      edit P (λ _. new_uri)
      on_header P (insert_header "Host" "blue.pingora.local")

All-map :
    {Q R : String → Type 0} → ((p : String) → Q p → R p) → (ps : List String) → All Q ps → All R ps
All-map f [] tt = tt
All-map f (p ∷ ps) (h, hs) = (f p h, All-map f ps hs)

tests_hold : (a b : Bool) → (not a && not b) ≡ true → (a ≡ false) × (b ≡ false)
tests_hold a b h = (ground (arith, h), ground (arith, h))

-- Split at `&` again, the query that goes upstream consists of exactly the parts that were neither
-- empty nor began with `debug=`, in their order, and of `ref=pingora` behind them.
pub split-new_query :
    (query : String)
    → (split b'&' (new_query query)
        ≡ filter (λ p. not (is_empty p) && not (starts_with p "debug=")) (split b'&' query)
          ++ "ref=pingora" ∷ [])
      × All
          (λ p. (is_empty p ≡ false) × (starts_with p "debug=" ≡ false))
          (filter (λ p. not (is_empty p) && not (starts_with p "debug=")) (split b'&' query))
unfolding new_query params kept
split-new_query query =
    let tests : String → Bool = λ p. not (is_empty p) && not (starts_with p "debug=") in
    (
      split-join_last "&" (filter tests (split b'&' query)) "ref=pingora"
          (filter-All tests (Lacks b'&') (split b'&' query) (split-Lacks b'&' query))
          (lacks-Lacks b'&' "ref=pingora" refl),
      All-map (λ p h. tests_hold (is_empty p) (starts_with p "debug=") h)
          (filter tests (split b'&' query)) (filter-holds tests (split b'&' query)),
    )

-- `main`
unfoldable pub main : (O : Outside) → Main O (Unit {0})
main O = do
  new_server O
  bootstrap O
  add_service O (http_proxy none (tcp "0.0.0.0:6150" ∷ []))
  run_forever O
