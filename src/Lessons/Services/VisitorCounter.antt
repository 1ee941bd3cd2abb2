-- ===== src/Lessons/Services/VisitorCounter.antt =====
-- examples/05_background_services.rs: a count of connections that two services share.
use pingora_guide.Base.{ℕ, ◌+◌, ◌%◌, ◌^◌, String, List, [], ◌∷◌, string_eq, nat_eq}
use pingora_guide.Base.Text.{◌<>◌}
use pingora_guide.Base.{◌>>◌}
use pingora_guide.Lessons.Mains.Server.{
  Main, Outside, new_server, bootstrap, add_service, run_forever, listening, background, job, tcp,
}

-- The state is the shared count; `fetch_add` wraps around, as does the sum in a release build.
unfoldable pub process_new : (ℕ → String) → ℕ → String × ℕ
process_new usize_to_string connection_count =
    let count = (connection_count + 1) % 2 ^ 64 in
    ("Hello! You are visitor #" <> usize_to_string count <> "\n", count)

-- What a turn of the exporter's loop reads: the count, unless the shutdown has been requested.
pub data ExporterTurn : Type 0 where
  changed : ExporterTurn
  ticked : ℕ → ExporterTurn

-- The counts that the exporter logs until it stops.
unfoldable pub start : List ExporterTurn → List ℕ
start [] = []
start (changed ∷ turns) = []
start (ticked count ∷ turns) = count ∷ start turns

-- `main`
unfoldable pub main : (O : Outside) → Main O (Unit {0})
main O = do
  new_server O
  bootstrap O
  add_service O (listening "Traffic" (tcp "0.0.0.0:6145" ∷ []))
  add_service O (background "MetricExporter" job)
  run_forever O
