-- ===== src/Middlewares/Metrics.antt =====
-- src/middlewares/metrics.rs: one counter and one histogram for each logged request.
pub mod Laws
pub mod Registration
use pingora_guide.Base.{ℕ, ◌-◌, String, Option, none, some, List, [], ◌∷◌, ◌++◌, ok, unwrap_or}
use pingora_guide.Pingora.{Pingora}
use pingora_guide.Context.{get, RequestMeta, any_meta}
use pingora_guide.Request.{World, Handler, Sample, inc, observe}
use pingora_guide.Middleware.{MiddlewareDecision, continue, Middleware, provided}

module _ (P : Pingora) where
  open P use {Error, Session, method, response_written}

  -- method, path, status, upstream
  unfoldable pub labels : Session → RequestMeta P → List String
  labels s meta =
      method s
      ∷ unwrap_or "unknown" meta.matched_route_id
      ∷ unwrap_or "0" (response_written s)
      ∷ unwrap_or "unknown" meta.upstream_id
      ∷ []

  -- `handle_logging`; `elapsed` is zero for an instant that is not past.
  unfoldable pub handle_logging : Option Error → Handler P MiddlewareDecision
  unfolding labels
  handle_logging e w = elim (get (RequestMeta P) w.ctx) [
    | none ↦ (ok continue, w)
    | some meta ↦
        let l = labels w.session meta in
        let elapsed = w.now - meta.start_time in
        (ok continue, record w { samples = w.samples ++ (inc l ∷ observe l elapsed ∷ []) })
  ]

  unfoldable pub metrics : Middleware P
  unfolding handle_logging
  metrics = record (provided P "metrics") { handle_logging = handle_logging }
