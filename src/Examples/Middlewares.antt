-- ===== src/Examples/Middlewares.antt =====
-- src/middlewares/ at concrete requests.
use pingora_guide.Base.{◌<◌, ◌≡◌, refl, ◌≢◌, ◌↔◌, ◌⊎◌, String, true, some, [], ◌∷◌, arith, ok}
use pingora_guide.Base.Dict
use pingora_guide.Error.{PingoraGuideError, ErrorType}
use pingora_guide.Context.{
  get, insert, RequestSizeState, default_size_state, any_size, any_entry, any_meta,
}
use pingora_guide.Context.Laws.{get-insert_self}
use pingora_guide.Request.{World}
use pingora_guide.Middleware.{continue}
use pingora_guide.Middlewares.IpRestriction
use pingora_guide.Middlewares.IpRestriction.Laws.{is_refused}
use pingora_guide.Middlewares.RequestSize
use pingora_guide.Middlewares.RequestSize.{declared}
use pingora_guide.Middlewares.RequestSize.Laws.{
  counted, feed, feed_continues_iff, exact_limit_refused,
}
use pingora_guide.Middlewares.RequestSize.Checks.{
  Over, stopped, zeroed, answered, handle_request_checks,
}
use pingora_guide.Examples.Instance.{sample, request, world}
use pingora_guide.Examples.Context.{fresh, fresh-IsTyped}
use pingora_guide.Examples.Routing.{shop_entry}

-- A request from a denied address, in a context that holds the route.
abbrev denied : World sample
denied =
    world (record (request "/shop") { client = some "10.0.0.9" })
      (insert {E = String} shop_entry fresh).1

denied_refused : is_refused sample denied ≡ true
unfolding insert get Dict.insert Dict.lookup
denied_refused = refl

-- A limit of ten bytes, and a request that declares ten.
abbrev ten : RequestSize.RequestSize
ten = record { max_bytes = 10 }

abbrev sized : World sample
sized = world (record (request "/shop") { headers = ("Content-Length", "10") ∷ [] }) fresh

sized_declared : declared sample ten sized.session ≡ some 10
unfolding declared Dict.lookup
sized_declared = refl

handle_request_checks_example :
    ((Over sample ten sized.session
        × (RequestSize.handle_request sample ten sized ≡ (
          stopped sample ten (sample.respond_error 413 sized.session).0,
          answered sample ten sized,
        )))
      ⊎ ((Over sample ten sized.session → ⊥)
          × (RequestSize.handle_request sample ten sized ≡ (ok continue, zeroed sample ten sized))))
    × (get RequestSizeState (RequestSize.handle_request sample ten sized).1.ctx
        ≡ some (record { bytes_read = 0 }))
handle_request_checks_example = handle_request_checks sample ten sized fresh-IsTyped

counted_zero : get RequestSizeState (counted sample ten sized).ctx ≡ some default_size_state
counted_zero = get-insert_self (PingoraGuideError (ErrorType × String)) default_size_state fresh

feed_continues_iff_example :
    ((feed sample ten (4 ∷ 6 ∷ []) (counted sample ten sized)).0 ≡ ok continue) ↔ (10 < 10)
feed_continues_iff_example =
    feed_continues_iff sample ten (4 ∷ 6 ∷ []) (counted sample ten sized) counted_zero (omega arith)
      (omega arith)

exact_limit_refused_example :
    (RequestSize.handle_request sample ten sized ≡ (ok continue, counted sample ten sized))
    × ((feed sample ten (4 ∷ 6 ∷ []) (counted sample ten sized)).0 ≢ ok continue)
exact_limit_refused_example =
    exact_limit_refused sample ten (4 ∷ 6 ∷ []) sized fresh-IsTyped sized_declared refl
      (omega arith) (omega arith)
