-- ===== src/Request.antt =====
-- The state that the handlers of one request share: the `&mut Session` and the `&mut GatewayContext`
-- that pingora passes to them, the clock, the count of calls with an answer from outside, and what
-- has been recorded in the process-wide metrics.
use pingora_guide.Base.{ℕ, ◌+◌, String, List, Outcome, Act}
use pingora_guide.Error.{PingoraGuideError, into_pingora}
use pingora_guide.Pingora.{Pingora}
use pingora_guide.Context.{GatewayContext}

-- A write to a Prometheus vector: the labels, and for the histogram the nanoseconds observed.
pub data Sample : Type 0 where
  inc : List String → Sample
  observe : List String → ℕ → Sample

module _ (P : Pingora) where
  open P use {Session, Error}

  pub record World : Type 0 where
    pub session : Session
    pub ctx : GatewayContext P
    pub now : ℕ
    pub calls : ℕ
    pub samples : List Sample

  -- The two kinds of handlers: the middlewares' and upstreams', and those of `ProxyHttp`.
  abbrev pub Handler : Type 0 → Type 0
  Handler = Act World (PingoraGuideError Error)

  abbrev pub ProxyHandler : Type 0 → Type 0
  ProxyHandler = Act World Error

  -- `?` in `ProxyHttp`: `From<PingoraGuideError> for Box<pingora::Error>`
  abbrev pub into_error : PingoraGuideError Error → Error
  into_error = into_pingora (P.explain) (P.to_string)

module _ (P : Pingora) {E : Type 0} where
  abbrev pub on_session : {A : Type 0} → (P.Session → Outcome E A × P.Session) → Act (World P) E A
  on_session f w = let (r, s) = f w.session in (r, record w { session = s })

  abbrev pub on_ctx : {A : Type 0} → Act (GatewayContext P) E A → Act (World P) E A
  on_ctx f w = let (r, c) = f w.ctx in (r, record w { ctx = c })

  abbrev pub update_ctx : (GatewayContext P → GatewayContext P) → Act (World P) E (Unit {0})
  update_ctx f w = (Outcome.ok tt, record w { ctx = f w.ctx })

  -- The number of the next call that is answered from outside.
  abbrev pub draw : Act (World P) E ℕ
  draw w = (Outcome.ok w.calls, record w { calls = w.calls + 1 })
