-- ===== src/Lessons/GracefulShutdown.antt =====
-- examples/03_graceful_shutdown.rs: the batch jobs, in milliseconds from the start. Sleeps may take longer
-- than their durations, and the task may go on later than it could; all else takes no time. The shutdown
-- is signalled at one moment.
pub mod Stops
use pingora_guide.Base.{
  ℕ, zero, suc, ◌+◌, ◌*◌, Bool, ◌&&◌, ◌||◌, Option, none, some, List, [], ◌∷◌, leb, ltb,
  if◌then◌else◌, ◌>>◌,
}
use pingora_guide.Lessons.Mains.Server.{
  Main, Outside, new_server, bootstrap, add_service, run_forever, background, job, Setting,
  configure, configured,
}

-- What is logged of a job, and when.
pub data Event : Type 0 where
  started completed : (job_id at : ℕ) → Event

-- When the service stopped, and what its jobs had logged.
pub record Stopped : Type 0 where
  pub at : ℕ
  pub log : List Event

abbrev pub after : Event → Option Stopped → Option Stopped
after event none = none
after event (some s) = some (record s { log = event ∷ s.log })

-- How long the sleep of a number and a duration takes, how much later than it could the task goes on
-- after the `select!` of a job, the branch that `select!` takes where both are ready (`true` for that of
-- the signal), and the moment of the signal.
module _ (sleep : ℕ → ℕ → ℕ) (delay : ℕ → ℕ) (tie : ℕ → Bool) (signal : ℕ) where
  -- When the sleep of a job is over.
  abbrev pub ends : ℕ → ℕ → ℕ
  ends now job_id = now + sleep (2 * job_id) 20_000

  -- `select!`: when the task goes on, with the first of the two branches that is ready, and whether it
  -- takes that of the signal.
  abbrev pub resumed : ℕ → ℕ → ℕ
  resumed now job_id =
      (if leb signal (ends now job_id) then signal else ends now job_id) + delay job_id

  abbrev pub is_signalled : ℕ → ℕ → Bool
  is_signalled now job_id =
      leb signal (resumed now job_id) && (ltb (resumed now job_id) (ends now job_id) || tie job_id)

  -- The loop.
  unfoldable pub start_from : ℕ → ℕ → ℕ → Option Stopped
  start_from zero now last_id = none
  start_from (suc fuel) now last_id =
      let job_id = last_id + 1 in
      let t = resumed now job_id in
      let finished = t + sleep (2 * job_id + 1) 10_000 in
      let rest = start_from fuel (t + sleep (2 * job_id + 1) 1_000) job_id in
      if leb signal now
      then some (record { at = now; log = [] })
      else after (started job_id now) (
          if is_signalled now job_id
          then after (completed job_id finished) (some (record { at = finished; log = [] }))
          else after (completed job_id t) rest)

  unfoldable pub start : Option Stopped
  start = start_from (signal + 1) 0 0

-- `conf.grace_period_seconds`
abbrev pub grace_period_seconds : ℕ
grace_period_seconds = 10

-- `main`
unfoldable pub main : (O : Outside) → Main O (Unit {0})
main O = do
  new_server O
  configure O (configured (Setting.grace_period_seconds grace_period_seconds) ∷ [])
  bootstrap O
  add_service O (background "BatchJobService" job)
  run_forever O
