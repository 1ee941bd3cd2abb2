-- ===== src/Lessons/Shared.antt =====
-- What the lessons of examples/ share: the state of an exchange, and the calls of the framework.
pub mod Tcp
pub mod Mock
use pingora_guide.Base.{
  ℕ, ◌+◌, String, Bool, Option, none, some, Outcome, ok, Act, err, panic, pure, false, true, gets,
  expect, ◌>>◌, throw, ◌>>=◌, lift,
}
use pingora_guide.Config.{Duration}
use pingora_guide.Error.{custom}
use pingora_guide.Pingora.{Pingora}
use pingora_guide.Upstream.{Alpn}

module _ (P : Pingora) where
  -- A peer as `HttpPeer::new` made it, with the fields that a lesson sets; `none` is the library's
  -- default.
  pub record TunedPeer : Type 0 where
    pub base : P.HttpPeer
    pub connection_timeout : Option (Option Duration)
    pub read_timeout : Option (Option Duration)
    pub write_timeout : Option (Option Duration)
    pub idle_timeout : Option (Option Duration)
    pub alpn : Option Alpn
    pub cert : Option P.CertKey

  abbrev pub untuned : P.HttpPeer → TunedPeer
  untuned base = record {
    base = base;
    connection_timeout = none;
    read_timeout = none;
    write_timeout = none;
    idle_timeout = none;
    alpn = none;
    cert = none;
  }

module _ (P : Pingora) (G C : Type 0) where
  -- `G` is what a lesson's statics and its service hold for all requests, `C` its `CTX`.
  pub record Exchange : Type 0 where
    pub session : P.Session
    pub ctx : C
    pub shared : G
    pub calls : ℕ

  abbrev pub Call : Type 0 → Type 0
  Call = Act Exchange P.Error

  -- A handler that edits a header beside the exchange.
  abbrev pub Edit : Type 0 → Type 0
  Edit = Act (Exchange × P.Header) P.Error

module _ (P : Pingora) {G C : Type 0} where
  abbrev pub on_session : {A : Type 0} → (P.Session → Outcome P.Error A × P.Session) → Call P G C A
  on_session f x = let (r, s) = f x.session in (r, record x { session = s })

  abbrev pub set_ctx : C → Call P G C (Unit {0})
  set_ctx c x = (ok tt, record x { ctx = c })

  -- An edit of the header that may fail, and one that may not.
  abbrev pub on_header : {A : Type 0} → (P.Header → Outcome P.Error A × P.Header) → Edit P G C A
  on_header f (x, h) = let (r, h') = f h in (r, (x, h'))

  abbrev pub edit : (P.Header → P.Header) → Edit P G C (Unit {0})
  edit f (x, h) = (ok tt, (x, f h))

  abbrev pub draw : Call P G C ℕ
  draw x = (ok x.calls, record x { calls = x.calls + 1 })

  -- `HttpPeer::new` for a host and a port
  unfoldable pub connect_to : String × ℕ → Bool → String → Call P G C P.HttpPeer
  connect_to addr tls sni = do call ← draw; lift (λ e. e) (P.new_static_peer call addr tls sni)

  -- `self.0.select(key, 256).ok_or_else(…)?`
  unfoldable pub select_backend : P.LoadBalancer → String → String → Call P G C P.Backend
  select_backend lb key message = do
    call ← draw
    elim (P.select call lb key 256) [
      | none ↦ throw (P.explain (custom "NoUpstreamAvailable") message)
      | some upstream ↦ pure upstream
    ]

  -- The peer that many lessons make: a fixed address, or the next backend of the pool.
  unfoldable pub fixed_peer : String × ℕ → Bool → String → Call P G C (TunedPeer P)
  unfolding connect_to
  fixed_peer addr tls sni = do base ← connect_to addr tls sni; pure (untuned P base)

  unfoldable pub balanced_peer : P.LoadBalancer → String → Call P G C (TunedPeer P)
  unfolding select_backend
  balanced_peer lb sni = do
    upstream ← select_backend lb "" "Empty upstream pool"
    pure (untuned P (P.new_peer upstream false sni))

  -- `session.respond_error(code).await?; return Ok(true)`
  abbrev pub refuse : ℕ → Call P G C Bool
  refuse code = do on_session (P.respond_error code); pure true

  -- `session.client_addr()` with `as_inet().unwrap().ip()` for an address.
  unfoldable pub client_ip : Call P G C (Option P.IpAddr)
  client_ip = do
    addr ← gets (λ x. P.client_addr x.session)
    elim addr [
      | none ↦ pure none
      | some addr ↦ do
        inet ← expect (P.as_inet addr) "called `Option::unwrap()` on a `None` value"
        pure (some (P.ip inet))
    ]

  -- `ResponseHeader::build(code, …)` and what is inserted into it.
  abbrev pub build : Act P.Header P.Error (Unit {0}) → ℕ → Call P G C P.Header
  build fill code x =
      let (r, h) = fill (P.build code) in
      elim r [ ok _ ↦ (ok h, x) | err e ↦ (err e, x) | panic message ↦ (panic message, x) ]
