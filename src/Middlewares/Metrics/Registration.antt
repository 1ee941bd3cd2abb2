-- ===== src/Middlewares/Metrics/Registration.antt =====
-- src/middlewares/metrics.rs: `MetricsMiddleware::new`, over a registry of `prometheus`.
use pingora_guide.Base.{String, List, [], ◌∷◌, ok, err, panic, Act, pure, ◌>>=◌}

pub record Opts : Type 0 where
  pub name : String
  pub help : String
  pub labels : List String

abbrev label_names : List String
label_names = "method" ∷ "path" ∷ "status" ∷ "upstream" ∷ []

abbrev pub req_opts : Opts
req_opts = record {
  name = "http_requests_total";
  help = "Total number of HTTP requests";
  labels = label_names;
}

abbrev pub latency_opts : Opts
latency_opts = record {
  name = "http_request_duration_seconds";
  help = "The HTTP request latency in seconds.";
  labels = label_names;
}

pub record Prometheus : Type 1 where
  pub Registry : Type 0
  pub IntCounterVec : Type 0
  pub HistogramVec : Type 0
  pub register_int_counter_vec : Opts → Act Registry String IntCounterVec
  pub register_histogram_vec : Opts → Act Registry String HistogramVec

module _ (M : Prometheus) where
  pub record MetricsMiddleware : Type 0 where
    pub req_metric : M.IntCounterVec
    pub latency_metric : M.HistogramVec

  -- `Result::unwrap`
  abbrev unwrap : {A : Type 0} → Act M.Registry String A → Act M.Registry String A
  unwrap m registry =
      let (r, registry') = m registry in
      elim r [
        | ok a ↦ (ok a, registry')
        | err e ↦ (panic "called `Result::unwrap()` on an `Err` value", registry')
        | panic message ↦ (panic message, registry')
      ]

  unfoldable pub new : Act M.Registry String MetricsMiddleware
  new = do
    req_metric ← unwrap (M.register_int_counter_vec req_opts)
    latency_metric ← unwrap (M.register_histogram_vec latency_opts)
    pure (record { req_metric = req_metric; latency_metric = latency_metric })
