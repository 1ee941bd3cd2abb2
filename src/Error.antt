-- ===== src/Error.antt =====
-- src/error.rs: the crate's errors and their conversion into the framework's.
use pingora_guide.Base.{ℕ, String}
use pingora_guide.Base.Text.{◌<>◌}

-- `pingora::ErrorType`: the variants that the code names; `other` is any other variant.
pub data ErrorType : Type 0 where
  custom : String → ErrorType
  internal_error connect_refused connect_no_route bind_error : ErrorType
  read_timedout connect_timedout : ErrorType
  connect_error write_error read_error connect_proxy_failure : ErrorType
  other : ℕ → ErrorType

pub data GatewayError : Type 0 where
  upstream_unavailable auth_failure rate_limited : GatewayError
  size_limited acl_error route_error invalid_request gateway_internal_error : String → GatewayError

pub data PingoraGuideError (E : Type 0) : Type 0 where
  gateway : GatewayError → PingoraGuideError E
  pingora : E → PingoraGuideError E

module _ {E : Type 0} where
  -- `From<pingora::Error> for PingoraGuideError`
  abbrev pub from_pingora : E → PingoraGuideError E
  from_pingora = pingora

  -- `From<PingoraGuideError> for Box<pingora::Error>`, over `Error::explain` and the derived
  -- `Debug` text of a `GatewayError`, which its `to_string` prints.
  abbrev pub into_pingora :
      (ErrorType → String → E) → (GatewayError → String) → PingoraGuideError E → E
  into_pingora explain to_string (pingora e) = e
  into_pingora explain to_string (gateway e) = explain (custom "GatewayError") (to_string e)

-- `Display for GatewayError`, which is the derived `Debug`.
unfoldable pub display_gateway : (GatewayError → String) → GatewayError → String
display_gateway debug e = debug e

-- `Display for PingoraGuideError`, over the text of a `pingora::Error`.
unfoldable pub display :
    {E : Type 0} → (GatewayError → String) → (E → String) → PingoraGuideError E → String
unfolding display_gateway
display debug error_text (gateway e) = "Gateway Error " <> display_gateway debug e
display debug error_text (pingora e) = "Pingora Error " <> error_text e
