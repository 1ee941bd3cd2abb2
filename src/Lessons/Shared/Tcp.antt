-- ===== src/Lessons/Shared/Tcp.antt =====
-- The sockets of `tokio::net`, as the lessons use them. A read gives the text of the bytes that came,
-- `String::from_utf8_lossy` of the filled part of the buffer.
use pingora_guide.Base.{ℕ, String, Outcome, Act}
use pingora_guide.Config.{Duration}

pub record Tcp (InetAddr : Type 0) : Type 1 where
  pub Socket : Type 0
  pub connect : ℕ → InetAddr → Outcome String Socket
  pub write_all : String → Act Socket String (Unit {0})
  pub read : ℕ → Act Socket String String
  -- Within a time: an error is that of the call, or that the time is over.
  pub connect_within : Duration → ℕ → InetAddr → Outcome String Socket
  pub read_within : Duration → ℕ → Act Socket String String
