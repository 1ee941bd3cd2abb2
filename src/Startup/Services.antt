-- ===== src/Startup/Services.antt =====
-- src/main.rs: `DynamicService`, a service that is chosen at run time.
use pingora_guide.Base.{ℕ, String, Option}

-- The service trait of the framework: what runs it, over the state `S` of the process.
pub record ServiceTrait (S ListenFds ShutdownWatch : Type 0) : Type 0 where
  pub start_service : Option ListenFds → ShutdownWatch → ℕ → S → S
  pub name : String
  pub threads : Option ℕ

module _ {S ListenFds ShutdownWatch : Type 0} where
  -- The wrapper passes every call on.
  unfoldable pub dynamic_service :
      ServiceTrait S ListenFds ShutdownWatch → ServiceTrait S ListenFds ShutdownWatch
  dynamic_service inner = record {
    start_service =
        λ fds shutdown listeners_per_fd. inner.start_service fds shutdown listeners_per_fd;
    name = inner.name;
    threads = inner.threads;
  }
