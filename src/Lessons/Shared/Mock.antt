-- ===== src/Lessons/Shared/Mock.antt =====
-- The servers that some lessons start beside the proxy. A task is spawned for each connection that is
-- accepted, and answers it alone; the tasks' answers are listed in the order of their connections.
use pingora_guide.Base.{String, Option, none, some, List, [], ◌∷◌, Outcome, ok, err, panic}

-- What the tasks read: one text for each connection, empty if nothing can be read, and `none` for an
-- `accept` that fails.
unfoldable pub accepted : List (Option String) → List String
accepted [] = []
accepted (none ∷ connections) = accepted connections
accepted (some request ∷ connections) = request ∷ accepted connections

-- `bind(…)`, with the message of `unwrap` or `expect`.
abbrev pub bound : {A : Type 0} → String → Outcome String (Unit {0}) → A → Outcome String A
bound message (ok _) answers = ok answers
bound message (err e) answers = panic message
bound message (panic m) answers = panic m

abbrev pub no_listener : String
no_listener = "called `Result::unwrap()` on an `Err` value"
