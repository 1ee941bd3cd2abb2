-- ===== src/Context/Types.antt =====
-- src/context.rs and src/middlewares/request_size.rs: the values that a request's context holds.
use pingora_guide.Base.{ℕ, String, Bool, false, Option, none, List}
use pingora_guide.Pingora.{Pingora}

-- `isize`
pub data ℤ : Type 0 where
  pos : ℕ → ℤ
  negsuc : ℕ → ℤ

module _ (P : Pingora) where
  open P use {SocketAddr, Guard, CacheKey, CachePhase}

  -- `Instant` is the number of nanoseconds on the monotonic clock.
  pub record RequestMeta : Type 0 where
    pub start_time : ℕ
    pub request_id : String
    pub matched_route_id : Option String
    pub upstream_id : Option String
    pub peer_addr : Option SocketAddr
    pub sni : Option String
    pub connection_attempts : ℕ
    pub connection_reused : Bool

  -- `RequestMeta::default`, at an instant
  abbrev pub default_meta : ℕ → RequestMeta
  default_meta now = record {
    start_time = now;
    request_id = "";
    matched_route_id = none;
    upstream_id = none;
    peer_addr = none;
    sni = none;
    connection_attempts = 0;
    connection_reused = false;
  }

  pub record ConnectionGuard : Type 0 where
    pub guard : Guard

  pub record CacheMeta : Type 0 where
    pub key : CacheKey
    pub status : CachePhase

pub record IdentityMeta : Type 0 where
  pub id : String
  pub roles : List String
  pub tenant_id : Option String

pub record RateLimitMeta : Type 0 where
  pub limit : ℤ
  pub remaining : ℤ
  pub reset_at : ℕ

pub data SecurityDecision : Type 0 where
  allow block monitor : SecurityDecision

pub record SecurityMeta : Type 0 where
  pub decision : SecurityDecision
  pub rule_id : Option String
  pub reason : String

pub record RequestSizeState : Type 0 where
  pub bytes_read : ℕ

-- `RequestSizeState::default`
abbrev pub default_size_state : RequestSizeState
default_size_state = record { bytes_read = 0 }
