-- ===== src/Upstreams/LoadBalancer/Laws.antt =====
-- src/upstreams/load_balancer.rs: the peer that `select_peer` gives, and what it records.
use pingora_guide.Base.{
  ◌≡◌, refl, sym, ◌∙◌, String, none, some, arith, ok, err, Option-cases, inl, inr, ap, ok-cases,
}
use pingora_guide.Config.{RouteConf, HashSource, no_source, client_ip, uri, header, cookie}
use pingora_guide.Error.{gateway, upstream_unavailable}
use pingora_guide.Pingora.{Pingora}
use pingora_guide.Context.{get, RequestMeta, any_meta, any_conf}
use pingora_guide.Context.Laws.{get-update}
use pingora_guide.Request.{World}
use pingora_guide.Upstream.{configure}
use pingora_guide.Upstreams.LoadBalancer.{
  LoadBalancerCluster, key_of_addr, hash_key, choose, select_peer,
}

module _ (P : Pingora) where
  open P use {Error, Backend, backend_addr}

  -- The address and the server name of a peer, as the metadata records them.
  abbrev pub record_peer : P.SocketAddr → String → RequestMeta P → RequestMeta P
  record_peer addr sni meta = record meta { peer_addr = some addr; sni = some sni }

  pub hash_key-ctx : (source : HashSource) (w : World P) → (hash_key P source w).1.ctx ≡ w.ctx
  unfolding hash_key key_of_addr
  hash_key-ctx no_source w = refl
  hash_key-ctx client_ip w = ground arith
  hash_key-ctx (cookie name) w = refl
  hash_key-ctx uri w = refl
  hash_key-ctx (header name) w = refl

  -- The balancer is asked with the key of the request and 256 tries. A backend that it gives becomes
  -- a peer with the cluster's options, and the metadata of the request names the backend's address
  -- and the cluster's server name.
  pub select_peer_picks :
      (self : LoadBalancerCluster P) (w w₁ : World P) {key : String} {b : Backend}
      {meta : RequestMeta P}
      → get (RequestMeta P) w.ctx ≡ some meta
      → hash_key P self.hash_source w ≡ (ok key, w₁)
      → P.select w₁.calls self.lb key 256 ≡ some b
      → ((select_peer P self w).0
          ≡ ok (configure P (P.new_peer b self.tls self.sni) self.options self.client_cert))
        × (get (RequestMeta P) (select_peer P self w).1.ctx
            ≡ some (record_peer (backend_addr b) self.sni meta))
  unfolding select_peer choose
  select_peer_picks self w w₁ {key} {b} {meta} found keyed picked =
      let same : w₁.ctx ≡ w.ctx = sym (ap (λ x. x.1.ctx) keyed) ∙ hash_key-ctx self.hash_source w in
      let written =
        get-update (RequestMeta P) RouteConf (record_peer (backend_addr b) self.sni) w₁.ctx
          (λ e. cc) in
      (ground arith, ground (arith, written.0, same))

  -- Where the balancer gives none, the upstream is unavailable and the context stays as it was.
  pub select_peer_unavailable :
      (self : LoadBalancerCluster P) (w w₁ : World P) {key : String}
      → hash_key P self.hash_source w ≡ (ok key, w₁)
      → P.select w₁.calls self.lb key 256 ≡ none
      → ((select_peer P self w).0 ≡ err (gateway upstream_unavailable))
        × ((select_peer P self w).1.ctx ≡ w.ctx)
  unfolding select_peer choose
  select_peer_unavailable self w w₁ {key} keyed nothing =
      let same : w₁.ctx ≡ w.ctx = sym (ap (λ x. x.1.ctx) keyed) ∙ hash_key-ctx self.hash_source w in
      (ground arith, ground (arith, same))

  -- `get` finds the same `RouteConf` after `select_peer` as before.
  pub select_peer-conf :
      (self : LoadBalancerCluster P) (w : World P)
      → get RouteConf (select_peer P self w).1.ctx ≡ get RouteConf w.ctx
  unfolding select_peer choose
  select_peer-conf self w = elim (ok-cases (hash_key P self.hash_source w).0) [
    | inr failed ↦ ground (arith, hash_key-ctx self.hash_source w)
    | inl (key, keyed) ↦
        let w₁ = (hash_key P self.hash_source w).1 in
        elim (Option-cases (P.select w₁.calls self.lb key 256)) [
          | inl nothing ↦ ground (arith, hash_key-ctx self.hash_source w)
          | inr (b, picked) ↦
              let written =
                get-update (RequestMeta P) RouteConf (record_peer (backend_addr b) self.sni) w₁.ctx
                  (λ e. cc) in
              ground (arith, hash_key-ctx self.hash_source w, written.1)
        ]
  ]
