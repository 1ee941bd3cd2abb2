-- ===== src/Lessons/Mains/Protocol.antt =====
-- examples/: the order in which a `main` is to do its steps.
use pingora_guide.Base.{◌≡◌, Bool, true, false, List, [], ◌∷◌, any, succeeded}
use pingora_guide.Lessons.Mains.Server.{
  Step, dictionary_set, opened, bootstrapped, ran, configured, spawned, added, Launch, Outside,
  Main,
}

-- A server that has services runs, and nothing follows.
abbrev pub is_served : List Step → Bool
is_served [] = false
is_served (added service ∷ steps) = is_served steps
is_served (ran ∷ []) = true
is_served (ran ∷ _ ∷ steps) = false
is_served (dictionary_set ∷ steps) = false
is_served (opened ∷ steps) = false
is_served (bootstrapped ∷ steps) = false
is_served (configured setting ∷ steps) = false
is_served (spawned body ∷ steps) = false

-- A server that is bootstrapped: threads are spawned, and then at least one service is added.
abbrev pub is_filled : List Step → Bool
is_filled [] = false
is_filled (spawned body ∷ steps) = is_filled steps
is_filled (added service ∷ steps) = is_served steps
is_filled (ran ∷ steps) = false
is_filled (dictionary_set ∷ steps) = false
is_filled (opened ∷ steps) = false
is_filled (bootstrapped ∷ steps) = false
is_filled (configured setting ∷ steps) = false

-- A server that is opened: it is configured, and then bootstrapped.
abbrev pub is_prepared : List Step → Bool
is_prepared [] = false
is_prepared (configured setting ∷ steps) = is_prepared steps
is_prepared (bootstrapped ∷ steps) = is_filled steps
is_prepared (spawned body ∷ steps) = false
is_prepared (added service ∷ steps) = false
is_prepared (ran ∷ steps) = false
is_prepared (dictionary_set ∷ steps) = false
is_prepared (opened ∷ steps) = false

-- The whole launch.
abbrev pub is_launch : List Step → Bool
is_launch [] = false
is_launch (dictionary_set ∷ steps) = is_launch steps
is_launch (opened ∷ steps) = is_prepared steps
is_launch (bootstrapped ∷ steps) = false
is_launch (configured setting ∷ steps) = false
is_launch (spawned body ∷ steps) = false
is_launch (added service ∷ steps) = false
is_launch (ran ∷ steps) = false

abbrev pub is_added : Step → Bool
is_added (added service) = true
is_added ran = false
is_added dictionary_set = false
is_added opened = false
is_added bootstrapped = false
is_added (configured setting) = false
is_added (spawned body) = false

abbrev pub initial : Launch
initial = record { calls = 0; log = [] }

module _ (O : Outside) where
  -- A launch is complete exactly if `main` does not fail, and services are added only then.
  unfoldable pub Concludes : Main O (Unit {0}) → Launch → Type 0
  Concludes m s =
      (is_launch (m s).1.log ≡ succeeded (m s).0) × (any is_added (m s).1.log ≡ succeeded (m s).0)
