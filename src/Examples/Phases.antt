-- ===== src/Examples/Phases.antt =====
-- src/gateway.rs at a gateway with two middlewares of its own.
use pingora_guide.Base.{
  string_eq, nat_eq, ◌≡◌, refl, true, none, some, [], ◌∷◌, ok, err, map_err, pure, throw,
}
use pingora_guide.Base.Dict
use pingora_guide.Error.{ErrorType, gateway, rate_limited}
use pingora_guide.Context.{default_meta, any_meta, any_conf}
use pingora_guide.Router.{match_request, match_regex, validate_host}
use pingora_guide.Request.{World, into_error}
use pingora_guide.Middleware.{Middleware, provided, stop}
use pingora_guide.Gateway.Chain.{Gateway, run_chain, run_lenient}
use pingora_guide.Gateway.Chain.Laws.{Passes, PassesLenient, run_chain_halts, run_lenient_halts}
use pingora_guide.Gateway.Requests.{request_filter, request_host}
use pingora_guide.Gateway.Requests.Laws.{request_filter_routes, IsRouted, answered}
use pingora_guide.Gateway.Connections.{edit_request, insert_headers, remove_headers, set_host}
use pingora_guide.Gateway.Connections.Laws.{edited, edit_request-value}
use pingora_guide.Gateway.Responses.{response_body_filter}
use pingora_guide.Gateway.Responses.Laws.{response_body_filter_stops}
use pingora_guide.Examples.Instance.{sample, request, world, header_laws}
use pingora_guide.Examples.Context.{fresh, fresh-IsTyped, fresh-meta}
use pingora_guide.Examples.Routing.{shop, shop_entry, three_router, three}

-- A middleware with the provided hooks, and one that stops where it can.
abbrev pub quiet : Middleware sample
quiet = provided sample "quiet"

abbrev pub stops : Middleware sample
stops = record (provided sample "stops") {
  handle_request = throw (gateway rate_limited);
  handle_request_body = λ last. pure stop;
  handle_response_body = λ last. pure stop;
  handle_logging = λ e. pure stop;
}

abbrev fails : Middleware sample
fails = record (provided sample "fails") { handle_logging = λ e. throw (gateway rate_limited) }

abbrev gate : Gateway sample
gate = record {
  conf = three;
  router = three_router;
  upstreams = [];
  middlewares = quiet ∷ stops ∷ quiet ∷ [];
}

abbrev asked : World sample
asked = world (record (request "/shop") { headers = ("Host", "a.org") ∷ [] }) fresh

run_chain_halts_example :
    run_chain sample (λ m. m.handle_request) (quiet ∷ stops ∷ quiet ∷ []) asked
    ≡ map_err (into_error sample) stops.handle_request asked
run_chain_halts_example =
    run_chain_halts sample (λ m. m.handle_request) {ms = quiet ∷ []} stops (quiet ∷ [])
      (Passes.pass {t = asked} refl Passes.done) (λ e. cc)

run_lenient_halts_example :
    run_lenient sample (λ m. m.handle_logging none) (fails ∷ stops ∷ quiet ∷ []) asked
    ≡ (ok stop, asked)
run_lenient_halts_example =
    run_lenient_halts sample (λ m. m.handle_logging none) {ms = fails ∷ []} {m = stops} (quiet ∷ [])
      (PassesLenient.skip {t = asked} refl PassesLenient.done) refl

asked_found :
    match_request sample three_router "/shop" (request_host sample asked.session)
    ≡ ok (some shop_entry)
unfolding match_request match_regex validate_host Dict.lookup request_host
asked_found = refl

request_filter_routes_example :
    (w' : World sample) × (request_filter sample gate asked
      ≡ answered sample (run_chain sample (λ m. m.handle_request) gate.middlewares w'))
    × IsRouted sample shop_entry (default_meta sample 5) asked w'
request_filter_routes_example =
    request_filter_routes sample gate asked fresh-IsTyped fresh-meta asked_found

response_body_filter_stops_example :
    response_body_filter sample gate true (asked, some 3)
    ≡ (err (ErrorType.custom "MiddlewareRejected", "Response Body Rejected"), (asked, some 3))
response_body_filter_stops_example =
    response_body_filter_stops sample gate (quiet ∷ []) (quiet ∷ []) stops true refl
      (Passes.pass {t = (asked, some 3)} refl Passes.done) refl

shop_edited :
    edit_request sample shop.headers
      (some "shop.internal")
      (asked, ("Cookie", "a") ∷ ("Host", "a.org") ∷ [])
    ≡ (ok tt, (asked, ("Host", "shop.internal") ∷ ("X-Gateway", "1") ∷ []))
unfolding edit_request insert_headers remove_headers set_host Dict.insert Dict.remove
shop_edited = refl

edit_request-value_example :
    (asked ≡ asked)
    × (header_laws.value (("Host", "shop.internal") ∷ ("X-Gateway", "1") ∷ []) "Host"
        ≡ edited sample header_laws shop.headers
            (some "shop.internal")
            "Host"
            (header_laws.value (("Cookie", "a") ∷ ("Host", "a.org") ∷ []) "Host"))
edit_request-value_example =
    edit_request-value sample header_laws shop.headers (some "shop.internal") asked asked
      (("Cookie", "a") ∷ ("Host", "a.org") ∷ [])
      (("Host", "shop.internal") ∷ ("X-Gateway", "1") ∷ []) "Host" shop_edited
