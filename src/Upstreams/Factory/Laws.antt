-- ===== src/Upstreams/Factory/Laws.antt =====
-- src/upstreams/factory.rs: what a balanced upstream is made of.
use mathlib.Core.Option
use pingora_guide.Base.{
  ℕ, ◌≡◌, refl, true, Option, none, some, List, [], ◌∷◌, arith, ok, inl, inr, made-cases,
}
use pingora_guide.Base.Text.{◌<>◌}
use pingora_guide.Config.{
  Duration, UpstreamConf, UpstreamSource, static_source, dns, file, uds, LoadBalancerSelection,
  HealthCheckConf,
}
use pingora_guide.Pingora.{Pingora}
use pingora_guide.Upstream.{Upstream}
use pingora_guide.Upstreams.LoadBalancer.{cluster_upstream}
use pingora_guide.Upstreams.Factory.Discovery.{resolve}
use pingora_guide.Upstreams.Factory.Health.{make_health_check, interval_of}
use pingora_guide.Upstreams.Factory.Make.{
  LbPlan, Service, plan_lb, finalize_lb, cluster_of, make_lb_instance, make_for, make_upstream,
}

-- How often the backends of a source are looked up again.
abbrev pub refresh_of : UpstreamSource → Option Duration
refresh_of (static_source backends) = none
refresh_of (dns hostname refresh) = some refresh
refresh_of (file path format refresh) = some refresh
refresh_of (uds path) = none

-- Is a source a Unix socket?
abbrev pub IsSocket : UpstreamSource → Type 0
IsSocket (uds path) = Unit
IsSocket (static_source backends) = ⊥
IsSocket (dns hostname refresh) = ⊥
IsSocket (file path format refresh) = ⊥

module _ (P : Pingora) where
  -- A balancer as a configuration asks for it.
  pub record IsPlanned (conf : UpstreamConf) (lb : LbPlan P) : Type 0 where
    pub selection : lb.selection ≡ conf.selection
    pub update_frequency : lb.update_frequency ≡ refresh_of conf.source
    pub health_check : lb.health_check ≡ Option.map (make_health_check P conf) conf.health_check
    pub frequency : lb.health_check_frequency ≡ Option.map interval_of conf.health_check
    pub parallel : lb.parallel_health_check ≡ true

  plan_lb_lem :
      (selection : LoadBalancerSelection) (source : UpstreamSource) (n : ℕ) {lb : LbPlan P} {n' : ℕ}
      → plan_lb P selection source n ≡ (ok lb, n')
      → (lb.selection ≡ selection)
        × (lb.update_frequency ≡ refresh_of source)
        × (lb.health_check ≡ none)
        × (lb.health_check_frequency ≡ none)
  unfolding plan_lb
  plan_lb_lem selection (static_source backends) n done =
      elim (made-cases (resolve P backends [] n)) [
        | inr failed ↦ absurd (ground arith)
        | inl ((bs, m), found) ↦ (ground arith, ground arith, ground arith, ground arith)
      ]
  plan_lb_lem selection (dns hostname refresh) n done =
      (ground arith, ground arith, ground arith, ground arith)
  plan_lb_lem selection (file path format refresh) n done =
      (ground arith, ground arith, ground arith, ground arith)
  plan_lb_lem selection (uds path) n done = absurd (ground arith)

  finalize_lb-IsPlanned :
      (lb : LbPlan P) (conf : UpstreamConf) (o : Option HealthCheckConf)
      → conf.health_check ≡ o
      → lb.selection ≡ conf.selection
      → lb.update_frequency ≡ refresh_of conf.source
      → lb.health_check ≡ none
      → lb.health_check_frequency ≡ none
      → IsPlanned conf (finalize_lb P lb conf).0
  unfolding finalize_lb
  finalize_lb-IsPlanned lb conf none asked selected refreshed unset unset' = record {
    selection = ground arith;
    update_frequency = ground arith;
    health_check = ground arith;
    frequency = ground arith;
    parallel = ground arith;
  }
  finalize_lb-IsPlanned lb conf (some hc) asked selected refreshed unset unset' = record {
    selection = ground arith;
    update_frequency = ground arith;
    health_check = ground arith;
    frequency = ground arith;
    parallel = ground arith;
  }

  module _ (task : LbPlan P → P.LoadBalancer) where
    -- What a balanced upstream consists of: a balancer as it is configured, one background service
    -- that runs it, and a cluster that asks the balancer which that service shares.
    abbrev pub IsBalanced : UpstreamConf → Upstream P × List (Service P) → Type 0
    IsBalanced conf made =
        (lb : LbPlan P) × IsPlanned conf lb
        × (made.0 ≡ cluster_upstream P (cluster_of P task lb conf))
        × (made.1 ≡ record { name = "lb-" <> conf.id; lb = lb } ∷ [])

    make_lb_instance-IsBalanced :
        (conf : UpstreamConf) (n : ℕ) {made : Upstream P × List (Service P)} {n' : ℕ}
        → make_lb_instance P task conf.selection conf n ≡ (ok made, n')
        → IsBalanced conf made
    unfolding make_lb_instance finalize_lb
    make_lb_instance-IsBalanced conf n {made} built =
        elim (made-cases (plan_lb P conf.selection conf.source n)) [
          | inr failed ↦ absurd (ground arith)
          | inl ((lb, m), planned) ↦
              let (selected, refreshed, unset, unset') =
                plan_lb_lem conf.selection conf.source n planned in
              (
                (finalize_lb P lb conf).0,
                finalize_lb-IsPlanned lb conf conf.health_check refl selected refreshed unset
                    unset',
                ground arith,
                ground arith,
              )
        ]

    pub make_for-IsBalanced :
        (source : UpstreamSource) (conf : UpstreamConf) (n : ℕ)
        {made : Upstream P × List (Service P)} {n' : ℕ}
        → (IsSocket source → ⊥)
        → make_for P task source conf n ≡ (ok made, n')
        → IsBalanced conf made
    unfolding make_for
    make_for-IsBalanced (uds path) conf n balanced built = absurd (balanced tt)
    make_for-IsBalanced (static_source backends) conf n balanced built =
        make_lb_instance-IsBalanced conf n built
    make_for-IsBalanced (dns hostname refresh) conf n balanced built =
        make_lb_instance-IsBalanced conf n built
    make_for-IsBalanced (file path format refresh) conf n balanced built =
        make_lb_instance-IsBalanced conf n built

    -- Where `make_upstream` succeeds for a source that is no Unix socket, the upstream is a cluster
    -- over the balancer that its one background service runs, with the selection, the refresh
    -- interval and the health check of the configuration, probed in parallel.
    pub make_upstream_balances :
        (conf : UpstreamConf) (n : ℕ) {made : Upstream P × List (Service P)} {n' : ℕ}
        → (IsSocket conf.source → ⊥)
        → make_upstream P task conf n ≡ (ok made, n')
        → IsBalanced conf made
    unfolding make_upstream
    make_upstream_balances conf n balanced built =
        make_for-IsBalanced conf.source conf n balanced built
