-- ===== src/Upstreams/LoadBalancer.antt =====
-- src/upstreams/load_balancer.rs: a cluster balanced by pingora's `LoadBalancer`.
pub mod Cookie
pub mod Laws
pub mod RoundTrip
use pingora_guide.Base.{
  ℕ, String, Bool, Option, none, some, Outcome, ok, err, ◌>>=◌, ◌>>◌, pure, throw, unwrap_or,
}
use pingora_guide.Base.Text.{◌<>◌}
use pingora_guide.Config.{
  ClusterOptions, default_options, HashSource, no_source, client_ip, uri, header, cookie,
}
use pingora_guide.Error.{gateway, upstream_unavailable}
use pingora_guide.Pingora.{Pingora}
use pingora_guide.Context.{update, RequestMeta, any_meta}
use pingora_guide.Request.{Handler, World, update_ctx, draw}
use pingora_guide.Upstream.{Peer, Upstream, configure}
use Cookie.{cookie_value}

module _ (P : Pingora) where
  open P use {CertKey, SocketAddr}

  pub record LoadBalancerCluster : Type 0 where
    pub lb : P.LoadBalancer
    pub tls : Bool
    pub sni : String
    pub client_cert : Option CertKey
    pub options : ClusterOptions
    pub hash_source : HashSource

  -- A cookie's name is stored with the `=` that follows it in the header.
  abbrev pub stored_source : Option HashSource → HashSource
  stored_source none = no_source
  stored_source (some (cookie name)) = cookie (name <> "=")
  stored_source (some h) = h

  unfoldable pub new :
      P.LoadBalancer
      → Bool
      → String
      → Option CertKey
      → Option ClusterOptions
      → Option HashSource
      → LoadBalancerCluster
  new lb tls sni client_cert options hash_source = record {
    lb = lb;
    tls = tls;
    sni = sni;
    client_cert = client_cert;
    options = unwrap_or default_options options;
    hash_source = stored_source hash_source;
  }

  -- The text of a header that is there and is text.
  abbrev pub header_text : P.Session → String → Option String
  header_text s name = elim (P.header s name) [ none ↦ none | some value ↦ P.to_str value ]

  -- A peer that is no internet address hashes to a random key.
  unfoldable pub key_of_addr : Option SocketAddr → Handler P String
  key_of_addr none w = (ok "", w)
  key_of_addr (some addr) w = elim (P.as_inet addr) [
    | some socket_ip ↦ (ok (P.ip_to_string (P.ip socket_ip)), w)
    | none ↦ (do call ← draw P; pure (P.new_uuid call)) w
  ]

  -- `key_str` of `select_peer`
  unfoldable pub hash_key : HashSource → Handler P String
  hash_key no_source w = (ok "", w)
  hash_key client_ip w = key_of_addr (P.client_addr w.session) w
  hash_key (cookie name) w =
      (ok (elim (header_text w.session "Cookie") [ none ↦ "" | some c ↦ cookie_value name c ]), w)
  hash_key uri w = (ok (P.uri_path w.session), w)
  hash_key (header name) w = (ok (unwrap_or "" (header_text w.session name)), w)

  -- `self.lb.select(key, 256).ok_or_else(…)`
  unfoldable pub choose : P.LoadBalancer → String → Handler P P.Backend
  choose lb key = do
    call ← draw P
    λ w. elim (P.select call lb key 256) [
      | none ↦ (err (gateway upstream_unavailable), w)
      | some upstream ↦ (ok upstream, w)
    ]

  unfoldable pub select_peer : LoadBalancerCluster → Handler P (Peer P)
  select_peer self = do
    key ← hash_key self.hash_source
    upstream ← choose self.lb key
    update_ctx P (
        update (RequestMeta P)
          (λ meta. record meta { peer_addr = some (P.backend_addr upstream); sni = some self.sni }))
    pure (configure P (P.new_peer upstream self.tls self.sni) self.options self.client_cert)

  unfoldable pub cluster_upstream : LoadBalancerCluster → Upstream P
  unfolding select_peer
  cluster_upstream self = record { select_peer = select_peer self }
