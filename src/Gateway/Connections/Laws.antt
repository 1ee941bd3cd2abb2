-- ===== src/Gateway/Connections/Laws.antt =====
-- src/gateway.rs: the choice of an upstream, and the headers that an upstream gets.
use pingora_guide.Base.{
  ◌≡◌, refl, String, Bool, true, false, not, ◌&&◌, Option, none, some, List, [], ◌∷◌, arith, ok,
  err, panic, map_err, any, if◌then◌else◌, string_eq, inl, inr, returned-cases,
}
use pingora_guide.Base.Dict
use pingora_guide.Base.Dict.{Dict}
use pingora_guide.Config.{RouteConf, HeaderConf}
use pingora_guide.Error.{custom}
use pingora_guide.Pingora.{Pingora}
use pingora_guide.Context.{get, RequestMeta, any_meta, any_conf}
use pingora_guide.Request.{World, into_error}
use pingora_guide.Upstream.{Upstream}
use pingora_guide.Middleware.{continue}
use pingora_guide.Gateway.Chain.{Gateway, run_chain, rejected}
use pingora_guide.Gateway.Connections.{
  no_upstream, peer_of, upstream_peer, insert_headers, remove_headers, set_host, edit_request,
  upstream_request_filter,
}

-- What `insert_header` and `remove_header` do to the header of a name: names are compared by
-- `same`, which ignores the case of letters.
pub record HeaderLaws (P : Pingora) : Type 0 where
  pub same : String → String → Bool
  pub value : P.Header → String → Option String
  pub value-insert :
      (key v : String) {h h' : P.Header}
      → P.insert_header key v h ≡ (ok tt, h')
      → (n : String) → value h' n ≡ (if same key n then some v else value h n)
  pub value-remove :
      (key n : String) (h : P.Header)
      → value (P.remove_header key h) n ≡ (if same key n then none else value h n)

module _ (P : Pingora) where
  -- The upstream that the metadata of a request names.
  abbrev pub named_upstream : Gateway P → Option String → Option (Upstream P)
  named_upstream g none = none
  named_upstream g (some id) = Dict.lookup id g.upstreams

  -- `upstream_peer` asks the upstream that the request's metadata names; its error is converted.
  pub upstream_peer_asks :
      (g : Gateway P) (w : World P) {meta : RequestMeta P} {u : Upstream P}
      → get (RequestMeta P) w.ctx ≡ some meta
      → named_upstream g meta.upstream_id ≡ some u
      → upstream_peer P g w ≡ map_err (into_error P) u.select_peer w
  unfolding upstream_peer peer_of
  upstream_peer_asks g w found named = ground arith

  -- Where the metadata names no upstream, or one that is not there, the client is sent a 500, and
  -- an error is returned: `UpstreamError`, or the error of that answer.
  pub upstream_peer_missing :
      (g : Gateway P) (w : World P) {meta : RequestMeta P}
      → get (RequestMeta P) w.ctx ≡ some meta
      → named_upstream g meta.upstream_id ≡ none
      → let (r, s) = P.respond_error 500 w.session in
        let message : String = elim meta.upstream_id [
          | none ↦ "Upstream id not set"
          | some id ↦ "Upstream config not found"
        ] in
        upstream_peer P g w ≡ (
          elim r [
            | ok _ ↦ err (P.explain (custom "UpstreamError") message)
            | err e ↦ err e
            | panic text ↦ panic text
          ],
          record w { session = s },
        )
  unfolding upstream_peer peer_of no_upstream
  upstream_peer_missing g w found missing = ground arith

  -- Without a `RouteConf` in the context that the middlewares leave, `upstream_request_filter`
  -- panics, and changes nothing more.
  pub upstream_request_filter_panics :
      (g : Gateway P) (s : World P × P.Header) (w : World P) (h : P.Header)
      → run_chain P (λ m. m.handle_upstream_request) g.middlewares s ≡ (ok continue, (w, h))
      → get RouteConf w.ctx ≡ none
      → upstream_request_filter P g s ≡ (panic "RouteConf should exist", (w, h))
  unfolding upstream_request_filter rejected
  upstream_request_filter_panics g s w h passed missing = ground arith

module _ (P : Pingora) (L : HeaderLaws P) where
  open L use {same, value, value-insert, value-remove}

  -- What the inserted headers make of the value of a name: the last one of that name counts.
  abbrev pub after_inserts : Dict String String → String → Option String → Option String
  after_inserts [] n old = old
  after_inserts ((key, v) ∷ rest) n old = after_inserts rest n (if same key n then some v else old)

  abbrev pub is_removed : List String → String → Bool
  is_removed keys n = any (λ key. same key n) keys

  -- The edit of a request as a function on the value of a name.
  abbrev pub edited : HeaderConf → Option String → String → Option String → Option String
  edited headers none n old =
      if is_removed headers.remove_req_headers n
      then none
      else after_inserts headers.add_req_headers n old
  edited headers (some sni) n old =
      if not headers.preserve_host_header && same "Host" n
      then some sni
      else if is_removed headers.remove_req_headers n
      then none
      else after_inserts headers.add_req_headers n old

  pub insert_headers-value :
      (d : Dict String String) (w w' : World P) (h h' : P.Header) (n : String)
      → insert_headers P d (w, h) ≡ (ok tt, (w', h'))
      → (w' ≡ w) × (value h' n ≡ after_inserts d n (value h n))
  unfolding insert_headers
  insert_headers-value [] w w' h h' n done = ground arith
  insert_headers-value ((key, v) ∷ rest) w w' h h' n done =
      elim (returned-cases (P.insert_header key v h)) [
        | inl (h₁, e) ↦
            ground (arith, e, insert_headers-value rest w w' h₁ h' n, value-insert key v e n)
        | inr bad ↦ ground arith
      ]

  pub remove_headers-value :
      (keys : List String) (h : P.Header) (n : String)
      → value (remove_headers P keys h) n ≡ (if is_removed keys n then none else value h n)
  unfolding remove_headers
  remove_headers-value [] h n = refl
  remove_headers-value (key ∷ keys) h n =
      ground (arith, remove_headers-value keys (P.remove_header key h) n, value-remove key n h)

  abbrev hosted : Bool → Option String → String → Option String → Option String
  hosted preserve none n old = old
  hosted preserve (some sni) n old = if not preserve && same "Host" n then some sni else old

  set_host-value :
      (preserve : Bool) (sni : Option String) (w w' : World P) (h h' : P.Header) (n : String)
      → set_host P preserve sni (w, h) ≡ (ok tt, (w', h'))
      → (w' ≡ w) × (value h' n ≡ hosted preserve sni n (value h n))
  unfolding set_host
  set_host-value true none w w' h h' n done = ground arith
  set_host-value true (some sni) w w' h h' n done = ground arith
  set_host-value false none w w' h h' n done = ground arith
  set_host-value false (some sni) w w' h h' n done =
      elim (returned-cases (P.insert_header "Host" sni h)) [
        | inl (h₁, e) ↦ ground (arith, e, value-insert "Host" sni e n)
        | inr bad ↦ ground arith
      ]

  -- Where the edit of a request's headers succeeds, the state of the request stays, and the value
  -- of every name is that of the route's rules: the insertions first, then the removals, and last
  -- the `Host` unless it is preserved.
  pub edit_request-value :
      (headers : HeaderConf) (sni : Option String) (w w' : World P) (h h' : P.Header) (n : String)
      → edit_request P headers sni (w, h) ≡ (ok tt, (w', h'))
      → (w' ≡ w) × (value h' n ≡ edited headers sni n (value h n))
  unfolding edit_request
  edit_request-value headers sni w w' h h' n done =
      elim (returned-cases (insert_headers P headers.add_req_headers (w, h))) [
        | inl (s, e) ↦
            let removed = remove_headers P headers.remove_req_headers s.1 in
            ground (
              arith,
              e,
              insert_headers-value headers.add_req_headers w s.0 h s.1 n e,
              remove_headers-value headers.remove_req_headers s.1 n,
              set_host-value headers.preserve_host_header sni s.0 w' removed h' n,
            )
        | inr bad ↦ ground arith
      ]
