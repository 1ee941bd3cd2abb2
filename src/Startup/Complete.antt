-- ===== src/Startup/Complete.antt =====
-- src/main.rs: the upstreams of the configuration are in the gateway.
use pingora_guide.Base.{
  ℕ, ◌≡◌, String, true, List, [], ◌∷◌, ◌++◌, arith, Outcome, ok, All, inl, inr, is_some, made-cases,
  string_eq,
}
use pingora_guide.Base.Dict
use pingora_guide.Base.Dict.{Dict, lookup-insert}
use text.Mathlib.TextEquality.{eq_iff}
use pingora_guide.Config.{UpstreamConf, GatewayConf}
use pingora_guide.Pingora.{Pingora}
use pingora_guide.Upstream.{Upstream}
use pingora_guide.Upstreams.Factory.{LbPlan, Service, make_upstream}
use pingora_guide.Gateway.Chain.{Gateway}
use pingora_guide.Startup.Assembly.{assemble-Parts}
use pingora_guide.Startup.{
  Host, Args, Server, ServerService, proxy, Listener, init_upstreams, assemble,
}

module _ (P : Pingora) where
  open P use {Error}

  -- Is an upstream of this id there?
  abbrev pub IsThere : String → Dict String (Upstream P) → Type 0
  IsThere id d = is_some (Dict.lookup id d) ≡ true

  insert-IsThere :
      (j id : String) (u : Upstream P) (d : Dict String (Upstream P))
      → IsThere j d
      → IsThere j (Dict.insert id u d)
  insert-IsThere j id u d there = ground (arith, lookup-insert j id u d)

  insert-IsThere_self :
      (id : String) (u : Upstream P) (d : Dict String (Upstream P))
      → IsThere id (Dict.insert id u d)
  insert-IsThere_self id u d = ground (arith, lookup-insert id id u d, eq_iff id id)

  module _ (load : ℕ → String → Outcome String GatewayConf) (host : Host P)
      (add_tls : ℕ → String → String → Outcome Error (Unit {0}))
      (task : LbPlan P → P.LoadBalancer) where
    init_upstreams-IsThere :
        (us : List UpstreamConf) (d : Dict String (Upstream P)) (services : List (Service P))
        (n : ℕ) {made : Dict String (Upstream P) × List (Service P)} {n' : ℕ}
        → init_upstreams P load host add_tls task us d services n ≡ (ok made, n')
        → ((id : String) → IsThere id d → IsThere id made.0) × All (λ u. IsThere u.id made.0) us
    unfolding init_upstreams
    init_upstreams-IsThere [] d services n {made} built =
        let same : made.0 ≡ d = ground arith in (λ id there. rw same there, tt)
    init_upstreams-IsThere (u ∷ us) d services n {made} {n'} built =
        elim (made-cases (make_upstream P task u n)) [
          | inr failed ↦ absurd (ground arith)
          | inl ((one, m), built_one) ↦
              let d₁ = Dict.insert u.id one.0 d in
              let (kept, rest) =
                init_upstreams-IsThere us d₁ (services ++ one.1) m {made = made} {n' = n'}
                  (ground arith) in
              (
                λ id there. kept id (insert-IsThere id u.id one.0 d there),
                (kept u.id (insert-IsThere_self u.id one.0 d), rest),
              )
        ]

    -- Where `main` assembles a server, its gateway has an upstream of the id of every upstream that
    -- is configured.
    pub configured_upstreams :
        (args : Args) (conf : GatewayConf) (n : ℕ) {server : Server P} {n' : ℕ} {g : Gateway P}
        {ls : List (Listener P)} {others : List (ServerService P)}
        → assemble P load host add_tls task args conf n ≡ (ok server, n')
        → server.services ≡ proxy g ls ∷ others
        → All (λ u. IsThere u.id g.upstreams) conf.upstreams
    configured_upstreams args conf n {server} {n'} {g} {ls} built served =
        let parts = assemble-Parts P load host add_tls task args conf n built in
        let same : g.upstreams ≡ parts.made.0 = ground (arith, parts.same) in
        rw same
          (init_upstreams-IsThere conf.upstreams [] [] parts.before {made = parts.made}
            {n' = parts.after} parts.inited).1
