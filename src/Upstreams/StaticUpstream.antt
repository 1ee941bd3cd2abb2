-- ===== src/Upstreams/StaticUpstream.antt =====
-- src/upstreams/static_upstream.rs: one fixed address, or a Unix domain socket.
pub mod Laws
use pingora_guide.Base.{
  ℕ, String, Bool, true, false, Option, none, some, Outcome, ok, err, panic, ◌>>=◌, ◌>>◌, pure,
  lift, unwrap_or, if◌then◌else◌,
}
use pingora_guide.Config.{ClusterOptions, default_options}
use pingora_guide.Error.{from_pingora}
use pingora_guide.Pingora.{Pingora}
use pingora_guide.Context.{update, RequestMeta, any_meta}
use pingora_guide.Request.{Handler, update_ctx, draw}
use pingora_guide.Upstream.{Peer, Upstream, configure}

module _ (P : Pingora) where
  open P use {CertKey, HttpPeer}

  pub record StaticUpstream : Type 0 where
    pub addr : String × ℕ
    pub tls : Bool
    pub sni : String
    pub client_cert : Option CertKey
    pub options : ClusterOptions
    pub is_uds : Bool

  unfoldable pub new :
      String × ℕ → Bool → String → Option CertKey → Option ClusterOptions → StaticUpstream
  new addr tls sni client_cert options = record {
    addr = addr;
    tls = tls;
    sni = sni;
    client_cert = client_cert;
    options = unwrap_or default_options options;
    is_uds = false;
  }

  unfoldable pub new_uds : String → ClusterOptions → StaticUpstream
  new_uds path options = record {
    addr = (path, 0);
    tls = false;
    sni = "";
    client_cert = none;
    options = options;
    is_uds = true;
  }

  -- The peer before it is configured.
  unfoldable pub make_peer : StaticUpstream → Handler P HttpPeer
  make_peer self = do
    call ← draw P
    lift from_pingora (
        if self.is_uds
        then P.new_uds self.addr.0 self.tls self.sni
        else P.new_static_peer call self.addr self.tls self.sni)

  unfoldable pub select_peer : StaticUpstream → Handler P (Peer P)
  select_peer self = do
    peer ← make_peer self
    update_ctx P (
        update (RequestMeta P)
          (λ meta. record meta { peer_addr = some (P.address peer); sni = some self.sni }))
    pure (configure P peer self.options self.client_cert)

  unfoldable pub static_upstream : StaticUpstream → Upstream P
  unfolding select_peer
  static_upstream self = record { select_peer = select_peer self }
