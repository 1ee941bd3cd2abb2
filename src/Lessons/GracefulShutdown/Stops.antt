-- ===== src/Lessons/GracefulShutdown/Stops.antt =====
-- examples/03_graceful_shutdown.rs: how the batch jobs end.
use pingora_guide.Base.{
  ℕ, zero, suc, ◌+◌, ◌*◌, ◌≤◌, ◌<◌, ◌≡◌, refl, Bool, true, false, Option, some, List, [], ◌∷◌, leb,
  arith, Bool-cases, inl, inr,
}
use pingora_guide.Lessons.GracefulShutdown.{
  Event, started, completed, Stopped, ends, resumed, is_signalled, start_from, start,
}

-- The log of a service that has started `n` jobs and goes on at `since`, and the moment at which it
-- stops: the jobs that follow are numbered in order, each starts before the signal, and is completed
-- before the next one starts and before the stop, at least 20 seconds after its start or, if it is the
-- last one, 10 seconds after the signal.
pub data Served (signal : ℕ) : (n since : ℕ) → List Event → ℕ → Type 0 where
  stopped : {n since : ℕ} → signal ≤ since → Served signal n since [] since
  interrupted :
      {n since : ℕ} (at : ℕ)
      → since < signal
      → signal + 10_000 ≤ at
      → Served signal n since (started (n + 1) since ∷ completed (n + 1) at ∷ []) at
  next :
      {n since : ℕ} (done again : ℕ) {log : List Event} {at : ℕ}
      → since < signal
      → since + 20_000 ≤ done
      → done + 1_000 ≤ again
      → Served signal (n + 1) again log at
      → Served signal n since (started (n + 1) since ∷ completed (n + 1) done ∷ log) at

module _ (sleep : ℕ → ℕ → ℕ) (delay : ℕ → ℕ) (tie : ℕ → Bool) (signal late : ℕ)
    (sleeps : (i d : ℕ) → d ≤ sleep i d) (wakes : (i d : ℕ) → sleep i d ≤ d + late)
    (resumes : (i : ℕ) → delay i ≤ late) where
  resumed_soon : (now job_id : ℕ) → resumed sleep delay tie signal now job_id ≤ signal + late
  resumed_soon now job_id =
      let d = resumes job_id in
      elim (Bool-cases (leb signal (ends sleep delay tie signal now job_id))) [
        | inl early ↦ ground (arith, early, d)
        | inr rest ↦ ground (arith, rest, d)
      ]

  is_signalled-after :
      (now job_id : ℕ)
      → is_signalled sleep delay tie signal now job_id ≡ true
      → signal ≤ resumed sleep delay tie signal now job_id
  is_signalled-after now job_id h = ground (arith, h)

  job_done :
      (now job_id : ℕ)
      → is_signalled sleep delay tie signal now job_id ≡ false
      → now + 20_000 ≤ resumed sleep delay tie signal now job_id
  job_done now job_id h =
      let d = sleeps (2 * job_id) 20_000 in
      elim (Bool-cases (leb signal (ends sleep delay tie signal now job_id))) [
        | inl early ↦ ground (arith, early, d, h)
        | inr rest ↦ ground (arith, rest, d, h)
      ]

  abbrev Ends : ℕ → ℕ → Option Stopped → Type 0
  Ends n since r =
      (s : Stopped) × (r ≡ some s)
      × Served signal n since s.log s.at
      × (s.at ≤ signal + (10_000 + 2 * late))

  interrupted-Ends :
      (fuel now n : ℕ)
      → leb signal now ≡ false
      → is_signalled sleep delay tie signal now (n + 1) ≡ true
      → Ends n now (start_from sleep delay tie signal (suc fuel) now n)
  unfolding start_from
  interrupted-Ends fuel now n running signalled =
      let t = resumed sleep delay tie signal now (n + 1) in
      let finished = t + sleep (2 * (n + 1) + 1) 10_000 in
      let seen = is_signalled-after now (n + 1) signalled in
      let soon = resumed_soon now (n + 1) in
      let least = sleeps (2 * (n + 1) + 1) 10_000 in
      let most = wakes (2 * (n + 1) + 1) 10_000 in
      (
        record { at = finished; log = started (n + 1) now ∷ completed (n + 1) finished ∷ [] },
        rw (running, signalled) refl,
        interrupted finished (ground (arith, running)) (omega (arith, seen, least)),
        omega (arith, soon, most),
      )

  start_from-Ends :
      (fuel now n : ℕ)
      → 0 < fuel
      → signal < now + fuel
      → now ≤ signal + (1_000 + 2 * late)
      → Ends n now (start_from sleep delay tie signal fuel now n)
  unfolding start_from
  start_from-Ends zero now n some_fuel enough near = absurd (omega (arith, some_fuel))
  start_from-Ends (suc fuel) now n some_fuel enough near = elim (Bool-cases (leb signal now)) [
    | inl requested ↦ (
      record { at = now; log = [] },
      ground (arith, requested),
      stopped (ground (arith, requested)),
      omega (arith, near),
    )
    | inr running ↦
        let before : now < signal = ground (arith, running) in
        let t = resumed sleep delay tie signal now (n + 1) in
        elim (Bool-cases (is_signalled sleep delay tie signal now (n + 1))) [
          | inl signalled ↦ interrupted-Ends fuel now n running signalled
          | inr through ↦
              let again = t + sleep (2 * (n + 1) + 1) 1_000 in
              let done = job_done now (n + 1) through in
              let soon = resumed_soon now (n + 1) in
              let least = sleeps (2 * (n + 1) + 1) 1_000 in
              let most = wakes (2 * (n + 1) + 1) 1_000 in
              let (s, stops, served, bound) =
                start_from-Ends fuel again (n + 1) (omega (arith, before, enough))
                  (omega (arith, enough, done, least)) (omega (arith, soon, most)) in
              (
                record s { log = started (n + 1) now ∷ completed (n + 1) t ∷ s.log },
                rw (running, through, stops) refl,
                next t again before done (omega (arith, least)) served,
                bound,
              )
        ]
  ]

  -- Where a sleep takes no less than its duration, and sleeps and the task after a `select!` are at most
  -- `late` milliseconds late: whenever the shutdown is signalled, the service stops, at most 10 seconds
  -- and twice that lateness after the signal, unless it is stopped from outside before; jobs start only
  -- before the signal, each is completed before the next one starts and before the stop, at least 20
  -- seconds after its start or, if it is the last one, 10 seconds after the signal.
  pub start-Served :
      (s : Stopped) × (start sleep delay tie signal ≡ some s)
      × Served signal 0 0 s.log s.at
      × (s.at ≤ signal + (10_000 + 2 * late))
  unfolding start
  start-Served = start_from-Ends (signal + 1) 0 0 (omega arith) (omega arith) (omega arith)
