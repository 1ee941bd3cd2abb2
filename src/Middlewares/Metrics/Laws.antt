-- ===== src/Middlewares/Metrics/Laws.antt =====
-- src/middlewares/metrics.rs: what one call of `handle_logging` records.
use pingora_guide.Base.{◌-◌, ◌≡◌, Option, none, some, List, [], ◌∷◌, ◌++◌, arith, ok}
use mathlib.Core.List.{append-nil}
use pingora_guide.Pingora.{Pingora}
use pingora_guide.Context.{get, RequestMeta, any_meta}
use pingora_guide.Request.{World, Sample, inc, observe}
use pingora_guide.Middleware.{continue}
use pingora_guide.Middlewares.Metrics.{labels, handle_logging}

module _ (P : Pingora) where
  -- What a request adds to the metrics.
  abbrev pub recorded : World P → List Sample
  recorded w = elim (get (RequestMeta P) w.ctx) [
    | none ↦ []
    | some meta ↦
        inc (labels P w.session meta)
        ∷ observe (labels P w.session meta) (w.now - meta.start_time)
        ∷ []
  ]

  -- A call of `handle_logging` with metadata in the context counts the request once and records its
  -- age once, both under its labels; without metadata it records nothing; it always continues and
  -- changes nothing else.
  pub handle_logging_records :
      (e : Option P.Error) (w : World P)
      → handle_logging P e w ≡ (ok continue, record w { samples = w.samples ++ recorded w })
  unfolding handle_logging
  handle_logging_records e w = ground (arith, append-nil w.samples)
