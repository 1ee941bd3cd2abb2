-- ===== src/Middleware.antt =====
-- src/middleware.rs: the trait of the plugins, as a record of its hooks. What a hook may change
-- besides the request's state (a header or a body that passes through) is a second state.
use pingora_guide.Base.{ℕ, String, Bool, false, Option, none, Act, pure}
use pingora_guide.Error.{PingoraGuideError}
use pingora_guide.Pingora.{Pingora}
use pingora_guide.Request.{World, Handler}
use pingora_guide.Upstream.{Peer}

pub data MiddlewareDecision : Type 0 where
  continue stop : MiddlewareDecision

module _ (P : Pingora) where
  open P use {Error, Header, Bytes, Digest, CacheKey}

  -- A hook over the request's state and a value `H` that it may edit.
  abbrev pub Editor : Type 0 → Type 0
  Editor H = Act (World P × H) (PingoraGuideError Error) MiddlewareDecision

  pub record Middleware : Type 0 where
    pub name : String
    pub handle_early_request : Handler P MiddlewareDecision
    pub handle_request : Handler P MiddlewareDecision
    pub handle_upstream_request : Editor Header
    pub handle_upstream_connected : Bool → Peer P → ℕ → Option Digest → Handler P MiddlewareDecision
    pub handle_upstream_response : Editor Header
    pub handle_error : Error → Handler P MiddlewareDecision
    pub handle_request_body : Bool → Editor (Option Bytes)
    pub handle_response : Editor Header
    pub handle_response_body : Bool → Editor (Option Bytes)
    pub init_cache : Handler P MiddlewareDecision
    pub cache_key : Handler P (Option CacheKey)
    pub should_serve_stale : Option Error → World P → Bool × World P
    pub handle_logging : Option Error → Handler P MiddlewareDecision

  -- The trait's provided methods.
  abbrev pub provided : String → Middleware
  provided name = record {
    name = name;
    handle_early_request = pure continue;
    handle_request = pure continue;
    handle_upstream_request = pure continue;
    handle_upstream_connected = λ reused peer fd digest. pure continue;
    handle_upstream_response = pure continue;
    handle_error = λ e. pure continue;
    handle_request_body = λ end_of_stream. pure continue;
    handle_response = pure continue;
    handle_response_body = λ end_of_stream. pure continue;
    init_cache = pure continue;
    cache_key = pure none;
    should_serve_stale = λ error w. (false, w);
    handle_logging = λ e. pure continue;
  }
