-- ===== src/Gateway/Chain.antt =====
-- src/gateway.rs: the gateway's parts, and the loops over its middlewares.
pub mod Laws
use pingora_guide.Base.{
  String, Bool, List, [], ◌∷◌, Outcome, ok, err, panic, Act, pure, throw, ◌>>=◌, map_err,
  unwrap_or_else,
}
use pingora_guide.Base.Dict.{Dict}
use pingora_guide.Config.{GatewayConf}
use pingora_guide.Error.{custom, PingoraGuideError}
use pingora_guide.Pingora.{Pingora}
use pingora_guide.Router.{Router}
use pingora_guide.Request.{into_error}
use pingora_guide.Upstream.{Upstream}
use pingora_guide.Middleware.{Middleware, MiddlewareDecision, continue, stop}

abbrev pub is_stop : MiddlewareDecision → Bool
is_stop stop = Bool.true
is_stop continue = Bool.false

module _ (P : Pingora) where
  open P use {Error, explain}

  pub record Gateway : Type 0 where
    pub conf : GatewayConf
    pub router : Router P
    pub upstreams : Dict String (Upstream P)
    pub middlewares : List (Middleware P)

  -- What a loop does with a hook: `hook` is the call that it makes of each middleware.
  abbrev pub Hook : Type 0 → Type 0
  Hook S = Middleware P → Act S (PingoraGuideError Error) MiddlewareDecision

  -- `for middleware in … { let result = hook.await?; if result == Stop { … } }`: the decision of
  -- the first middleware that stops, or `continue`.
  unfoldable pub run_chain :
      {S : Type 0} → Hook S → List (Middleware P) → Act S Error MiddlewareDecision
  run_chain hook [] s = (ok continue, s)
  run_chain hook (m ∷ ms) s =
      let (r, s') = hook m s in
      elim r [
        | ok d ↦ elim d [ stop ↦ (ok stop, s') | continue ↦ run_chain hook ms s' ]
        | err e ↦ (err (into_error P e), s')
        | panic message ↦ (panic message, s')
      ]

  -- The same with `unwrap_or(MiddlewareDecision::Continue)` in place of `?`.
  unfoldable pub run_lenient :
      {S : Type 0} → Hook S → List (Middleware P) → Act S Error MiddlewareDecision
  run_lenient hook [] s = (ok continue, s)
  run_lenient hook (m ∷ ms) s =
      let (r, s') = hook m s in
      elim r [
        | ok d ↦ elim d [ stop ↦ (ok stop, s') | continue ↦ run_lenient hook ms s' ]
        | err e ↦ run_lenient hook ms s'
        | panic message ↦ (panic message, s')
      ]

  -- A `Stop` that becomes an error.
  unfoldable pub rejected : {S : Type 0} → String → MiddlewareDecision → Act S Error (Unit {0})
  rejected message stop = throw (explain (custom "MiddlewareRejected") message)
  rejected message continue = pure tt
