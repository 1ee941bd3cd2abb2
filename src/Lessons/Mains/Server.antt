-- ===== src/Lessons/Mains/Server.antt =====
-- examples/: what the `main` functions of the lessons do to the server, up to `run_forever`. The
-- state is the count of calls that are answered from outside and a log of what was done.
use pingora_guide.Base.{
  ℕ, ◌+◌, String, Bool, true, false, Option, none, some, List, [], ◌∷◌, ◌++◌, map, Outcome, ok, err,
  panic, Act, throw, if◌then◌else◌,
}
use pingora_guide.Base.Text.{◌<>◌}
use pingora_guide.Config.{Duration}

pub data Listener : Type 0 where
  tcp : String → Listener
  -- address, certificate, key
  tls : String → String → String → Listener
  -- `add_tls_with_settings`, with HTTP/2 enabled
  tls_h2 : String → String → String → Listener

pub data Check : Type 0 where
  -- the connection timeout, then `consecutive_success` and `consecutive_failure`
  tcp_check : Duration → ℕ → ℕ → Check
  -- the host, if TLS is used, the read timeout and the connection timeout, and the two counts
  http_check : String → Bool → Duration → Duration → ℕ → ℕ → Check
  -- `BodyMatchCheck`: the host and the text that is expected
  body_check : String → String → Check

pub data Discovery : Type 0 where
  -- addresses with their weights
  fixed : List (String × ℕ) → Discovery
  file in_memory : String → Discovery

-- The addresses of `try_from_iter`, of the same weight.
abbrev pub evenly : List String → Discovery
evenly addresses = fixed (map (λ a. (a, 1)) addresses)

-- A `LoadBalancer` under construction.
pub record Pool : Type 0 where
  pub discovery : Discovery
  pub update_frequency : Option Duration
  pub health_check : Option Check
  pub health_check_frequency : Option Duration
  pub parallel_health_check : Bool

abbrev pub pool_of : Discovery → Pool
pool_of discovery = record {
  discovery = discovery;
  update_frequency = none;
  health_check = none;
  health_check_frequency = none;
  parallel_health_check = false;
}

abbrev pub checked : Check → Pool → Pool
checked check pool = record pool {
  health_check = some check;
  health_check_frequency = some 1000000000;
  parallel_health_check = true;
}

pub data Task : Type 0 where
  job : Task
  balancer : Pool → Task

pub data Service : Type 0 where
  listening : String → List Listener → Service
  background : String → Task → Service
  -- a proxy, over a balancer if it has one
  http_proxy : Option Pool → List Listener → Service
  prometheus : List Listener → Service

pub data Setting : Type 0 where
  grace_period_seconds threads : ℕ → Setting
  work_stealing : Bool → Setting

pub data Step : Type 0 where
  dictionary_set opened bootstrapped ran : Step
  configured : Setting → Step
  spawned : String → Step
  added : Service → Step

pub record Launch : Type 0 where
  pub calls : ℕ
  pub log : List Step

-- The calls of libraries whose answer is not known; the number is that of the call.
pub record Outside : Type 1 where
  pub Error : Type 0
  pub from_text : String → Error
  pub server_new : ℕ → Outcome Error (Unit {0})
  -- `Arc::get_mut` on the configuration
  pub unshared : ℕ → Bool
  pub exists : ℕ → String → Bool
  pub tls_settings : ℕ → String → String → Outcome Error (Unit {0})
  pub add_tls : ℕ → String → String → Outcome Error (Unit {0})
  pub read_file : ℕ → String → Outcome Error String
  pub x509_from_pem : String → Outcome String (Unit {0})
  pub private_key_from_pem : String → Outcome String (Unit {0})
  pub try_from_iter : ℕ → List String → Outcome Error (Unit {0})
  pub new_with_weight : ℕ → String → ℕ → Outcome Error (Unit {0})
  pub to_socket_addrs : ℕ → String → Outcome Error (List String)
  pub register_metric : ℕ → String → Outcome Error (Unit {0})

-- `expect` and `unwrap` on a `Result`; the panic's message leaves out the error.
abbrev pub or_panic : {E A : Type 0} → String → Outcome E A → Outcome E A
or_panic message (ok a) = ok a
or_panic message (err e) = panic message
or_panic message (panic m) = panic m

-- The message of `unwrap` on an error, without the error.
abbrev pub unwrapped : String
unwrapped = "called `Result::unwrap()` on an `Err` value"

-- `next()` of the addresses
abbrev pub first : List String → Option String
first [] = none
first (addr ∷ addrs) = some addr

module _ (O : Outside) where
  abbrev pub Main : Type 0 → Type 0
  Main = Act Launch O.Error

  -- What is done on the answer of a call: a step, where the call succeeds.
  abbrev pub answer : {A : Type 0} → List Step → Outcome O.Error A → Main A
  answer steps (ok a) s = (ok a, record { calls = s.calls + 1; log = s.log ++ steps })
  answer steps (err e) s = (err e, record { calls = s.calls + 1; log = s.log })
  answer steps (panic message) s = (panic message, record { calls = s.calls + 1; log = s.log })

  abbrev pub call : {A : Type 0} → (ℕ → Outcome O.Error A) → List Step → Main A
  call f steps s = answer steps (f s.calls) s

  abbrev pub note : Step → Main (Unit {0})
  note step s = (ok tt, record { calls = s.calls; log = s.log ++ (step ∷ []) })

  -- `Server::new(Some(opt))?`
  abbrev pub new_server : Main (Unit {0})
  new_server = call O.server_new (opened ∷ [])

  abbrev pub bootstrap : Main (Unit {0})
  bootstrap = note bootstrapped

  abbrev pub spawn : String → Main (Unit {0})
  spawn body = note (spawned body)

  abbrev pub add_service : Service → Main (Unit {0})
  add_service service = note (added service)

  -- It does not return.
  abbrev pub run_forever : Main (Unit {0})
  run_forever = note ran

  -- `if let Some(conf) = Arc::get_mut(&mut my_server.configuration)`
  abbrev pub configure : List Step → Main (Unit {0})
  configure settings s = (
    ok tt,
    record { calls = s.calls + 1; log = if O.unshared s.calls then s.log ++ settings else s.log },
  )

  -- `LoadBalancer::try_from_iter([…])?`
  abbrev pub try_from_iter : List String → Main (Unit {0})
  try_from_iter addresses = call (λ n. O.try_from_iter n addresses) []

  abbrev pub exists : String → Main Bool
  exists path s = (ok (O.exists s.calls path), record { calls = s.calls + 1; log = s.log })

  -- `format!("Missing keys at {}", path).into()`
  abbrev pub missing_keys : String → Main (Unit {0})
  missing_keys path = throw (O.from_text ("Missing keys at " <> path))

  -- `map_err(|e| format!(…))?`
  abbrev pub or_text : {A : Type 0} → String → Outcome String A → Outcome O.Error A
  or_text prefix (ok a) = ok a
  or_text prefix (err e) = err (O.from_text (prefix <> e))
  or_text prefix (panic message) = panic message
