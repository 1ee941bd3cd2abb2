-- ===== src/Lessons/Services/Configuration.antt =====
-- examples/01_configuration.rs: a service that ends every connection at once.
use pingora_guide.Base.{Option, none}
use pingora_guide.Base.{[], ◌>>◌, ◌∷◌}
use pingora_guide.Lessons.Mains.Server.{
  Main, Outside, new_server, bootstrap, add_service, run_forever, listening, tcp,
}

unfoldable pub process_new : {Stream : Type 0} → Stream → Option Stream
process_new stream = none

-- `main`
unfoldable pub main : (O : Outside) → Main O (Unit {0})
main O = do
  new_server O
  bootstrap O
  add_service O (listening "ConfigDemo" (tcp "0.0.0.0:6143" ∷ []))
  run_forever O
