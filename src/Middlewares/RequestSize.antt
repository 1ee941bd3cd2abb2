-- ===== src/Middlewares/RequestSize.antt =====
-- src/middlewares/request_size.rs: the limit on the size of a request's body.
pub mod Laws
pub mod Checks
use pingora_guide.Base.{
  ℕ, ◌*◌, ◌+◌, ◌%◌, ◌^◌, String, Bool, Option, none, some, List, Outcome, ok, err, panic, pure,
  ◌>>=◌, ◌>>◌, map_err, ltb, leb, unwrap_or, if◌then◌else◌,
}
use pingora_guide.Config.{ServerConf}
use pingora_guide.Error.{PingoraGuideError, gateway, size_limited}
use pingora_guide.Pingora.{Pingora}
use pingora_guide.Context
use pingora_guide.Context.{get_mut, RequestSizeState, default_size_state, any_size, GatewayContext}
use pingora_guide.Request.{World, Handler, on_session, on_ctx}
use pingora_guide.Middleware.{MiddlewareDecision, continue, stop, Middleware, provided, Editor}

-- `usize` on the 64-bit targets
abbrev pub usize_mod : ℕ
usize_mod = 2 ^ 64

-- `RequestSizeMiddleware`
pub record RequestSize : Type 0 where
  pub max_bytes : ℕ

-- `RequestSizeMiddleware::new`
abbrev pub new : ServerConf → RequestSize
new conf = record { max_bytes = unwrap_or (1024 * 1024 * 10) conf.client_max_body_size }

module _ (P : Pingora) (self : RequestSize) where
  open P use {Bytes, bytes_len, header, to_str, parse_usize, respond_error, error_text}

  unfoldable pub reject : Handler P MiddlewareDecision
  reject = do
    map_err (λ e. gateway (size_limited (error_text e))) (on_session P (respond_error 413))
    pure stop

  -- The length that the header declares, where it is there, is text and is a number.
  unfoldable pub declared : P.Session → Option ℕ
  declared s = elim (header s "Content-Length") [
    | none ↦ none
    | some value ↦ elim (to_str value) [ none ↦ none | some len_str ↦ parse_usize len_str ]
  ]

  -- `handle_request`
  unfoldable pub handle_request : Handler P MiddlewareDecision
  handle_request = do
    on_ctx P (Context.insert default_size_state)
    λ w. elim (declared w.session) [
      | none ↦ (ok continue, w)
      | some len ↦ if ltb self.max_bytes len then reject w else (ok continue, w)
    ]

  -- The branch of `handle_request_body` where a chunk is there; `+=` wraps in a release build.
  unfoldable pub count :
      Bytes
      → RequestSizeState
      → (RequestSizeState → GatewayContext P)
      → Handler P MiddlewareDecision
  count b state write w =
      let total = (state.bytes_read + bytes_len b) % usize_mod in
      let w' = record w { ctx = write (record { bytes_read = total }) } in
      if leb self.max_bytes total then reject w' else (ok continue, w')

  -- `handle_request_body`
  unfoldable pub handle_request_body : Bool → Editor P (Option Bytes)
  unfolding count
  handle_request_body end_of_stream (w, body) = elim (get_mut RequestSizeState w.ctx) [
    | none ↦ (panic "Request size state should exist", (w, body))
    | some (state, write) ↦ elim body [
      | none ↦ (ok continue, (w, none))
      | some b ↦ let (r, w') = count b state write w in (r, (w', some b))
    ]
  ]

  unfoldable pub request_size : Middleware P
  unfolding handle_request handle_request_body
  request_size = record (provided P "request_size") {
    handle_request = handle_request;
    handle_request_body = handle_request_body;
  }
