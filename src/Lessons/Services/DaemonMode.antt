-- ===== src/Lessons/Services/DaemonMode.antt =====
-- examples/02_daemon_mode.rs: a heartbeat until the shutdown.
use pingora_guide.Base.{ℕ, zero, suc, List, [], ◌∷◌}
use pingora_guide.Base.{◌>>◌}
use pingora_guide.Lessons.Mains.Server.{
  Main, Outside, new_server, bootstrap, add_service, run_forever, background, job,
}

-- What a turn of the loop meets: the shutdown, or a tick of the clock.
pub data Turn : Type 0 where
  changed ticked : Turn

-- How often the service beeps.
unfoldable pub start : List Turn → ℕ
start [] = zero
start (changed ∷ turns) = zero
start (ticked ∷ turns) = suc (start turns)

-- `main`
unfoldable pub main : (O : Outside) → Main O (Unit {0})
main O = do new_server O; bootstrap O; add_service O (background "Heartbeat" job); run_forever O
