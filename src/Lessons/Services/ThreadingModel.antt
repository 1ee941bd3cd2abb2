-- ===== src/Lessons/Services/ThreadingModel.antt =====
-- examples/04_threading_model.rs: a report at each tick until the shutdown.
use pingora_guide.Base.{ℕ, zero, suc, Bool, List, [], ◌∷◌, true, false}
use pingora_guide.Base.{◌>>◌}
use pingora_guide.Lessons.Mains.Server.{
  Main, Outside, new_server, bootstrap, add_service, run_forever, background, job, configure,
  configured, threads, work_stealing,
}

-- How often the service reports: a turn reads if the shutdown is requested.
unfoldable pub start : List Bool → ℕ
start [] = zero
start (true ∷ turns) = zero
start (false ∷ turns) = suc (start turns)

-- `main`
unfoldable pub main : (O : Outside) → Main O (Unit {0})
main O = do
  new_server O
  configure O (configured (threads 2) ∷ configured (work_stealing false) ∷ [])
  bootstrap O
  add_service O (background "Reporter-A" job)
  add_service O (background "Reporter-B" job)
  run_forever O
