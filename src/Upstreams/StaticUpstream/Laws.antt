-- ===== src/Upstreams/StaticUpstream/Laws.antt =====
-- src/upstreams/static_upstream.rs: the peer that `select_peer` gives, and what it records.
use pingora_guide.Base.{ℕ, ◌≡◌, String, some, arith, Outcome, ok, inl, inr, ok-cases, if◌then◌else◌}
use pingora_guide.Config.{RouteConf}
use pingora_guide.Pingora.{Pingora}
use pingora_guide.Context.{get, RequestMeta, any_meta, any_conf}
use pingora_guide.Context.Laws.{get-update}
use pingora_guide.Request.{World}
use pingora_guide.Upstream.{configure}
use pingora_guide.Upstreams.StaticUpstream.{StaticUpstream, make_peer, select_peer}

module _ (P : Pingora) where
  open P use {HttpPeer, address}

  abbrev pub record_static : P.SocketAddr → String → RequestMeta P → RequestMeta P
  record_static addr sni meta = record meta { peer_addr = some addr; sni = some sni }

  -- The library's answer for the stored address: a path for a Unix socket, else host and port.
  abbrev pub made : StaticUpstream P → ℕ → Outcome P.Error HttpPeer
  made self call =
      if self.is_uds
      then P.new_uds self.addr.0 self.tls self.sni
      else P.new_static_peer call self.addr self.tls self.sni

  -- Where the library makes a peer, it gets the upstream's options, and the metadata of the request
  -- names its address and the upstream's server name.
  pub select_peer_makes :
      (self : StaticUpstream P) (w : World P) {peer : HttpPeer} {meta : RequestMeta P}
      → get (RequestMeta P) w.ctx ≡ some meta
      → made self w.calls ≡ ok peer
      → ((select_peer P self w).0 ≡ ok (configure P peer self.options self.client_cert))
        × (get (RequestMeta P) (select_peer P self w).1.ctx
            ≡ some (record_static (address peer) self.sni meta))
  unfolding select_peer make_peer
  select_peer_makes self w {peer} found built =
      let written =
        get-update (RequestMeta P) RouteConf (record_static (address peer) self.sni) w.ctx
          (λ e. cc) in
      (ground arith, ground (arith, written.0))

  pub static_peer-conf :
      (self : StaticUpstream P) (w : World P)
      → get RouteConf (select_peer P self w).1.ctx ≡ get RouteConf w.ctx
  unfolding select_peer make_peer
  static_peer-conf self w = elim (ok-cases (made self w.calls)) [
    | inr failed ↦ ground arith
    | inl (peer, built) ↦
        let written =
          get-update (RequestMeta P) RouteConf (record_static (address peer) self.sni) w.ctx
            (λ e. cc) in
        ground (arith, written.1)
  ]
