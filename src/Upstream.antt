-- ===== src/Upstream.antt =====
-- src/upstream.rs: the contract of a backend, and the peers that it returns.
use pingora_guide.Base.{Bool, Option, none, some, if◌then◌else◌}
use pingora_guide.Config.{Duration, ClusterOptions}
use pingora_guide.Pingora.{Pingora}
use pingora_guide.Request.{Handler}

-- `ALPN`: the variants that the code names.
pub data Alpn : Type 0 where
  h1 h2 h2h1 : Alpn

-- The options of a peer that the code sets.
pub record PeerOptions : Type 0 where
  pub connection_timeout : Option Duration
  pub read_timeout : Option Duration
  pub write_timeout : Option Duration
  pub idle_timeout : Option Duration
  pub alpn : Alpn
  pub verify_hostname : Bool

module _ (P : Pingora) where
  open P use {HttpPeer, CertKey}

  -- A peer as `HttpPeer::new` made it, with the fields that the code then sets.
  pub record Peer : Type 0 where
    pub base : HttpPeer
    pub options : PeerOptions
    pub cert : Option CertKey

  -- `dyn Upstream`
  pub record Upstream : Type 0 where
    pub select_peer : Handler P Peer

  -- What both implementations do to a new peer.
  abbrev pub configure : HttpPeer → ClusterOptions → Option CertKey → Peer
  configure base o client_cert = record {
    base = base;
    options = record {
      connection_timeout = some o.connect_timeout;
      read_timeout = some o.read_timeout;
      write_timeout = some o.write_timeout;
      idle_timeout = o.idle_timeout;
      alpn = if o.enable_h2 then h2h1 else h1;
      verify_hostname = o.verify_hostname;
    };
    cert = elim client_cert [ some cert ↦ some cert | none ↦ P.client_cert_key base ];
  }
