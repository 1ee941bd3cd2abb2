-- ===== src/Lessons/Limits/SlidingWindow.antt =====
-- examples/37_sliding_window.rs: the rate of an address.
use pingora_guide.Base.{
  ℕ, Bool, false, none, some, ok, pure, gets, ◌>>=◌, ◌>>◌, if◌then◌else◌, string_eq, nat_eq,
}
use pingora_guide.Pingora.{Pingora}
use pingora_guide.Lessons.Shared.{TunedPeer, Call, balanced_peer, refuse, client_ip}
use pingora_guide.Base.{List, String, [], ◌∷◌}
use pingora_guide.Lessons.Mains.Server.{
  Main, Outside, new_server, bootstrap, add_service, run_forever, http_proxy, tcp, try_from_iter,
  pool_of, evenly,
}

-- `pingora_limits::rate::Rate`, with `f64` and its order.
pub record Rate (IpAddr : Type 0) : Type 1 where
  pub State : Type 0
  pub F64 : Type 0
  pub of_nat : ℕ → F64
  pub gt : F64 → F64 → Bool
  pub observe : IpAddr → ℕ → State → ℕ × State
  pub rate : IpAddr → State → F64

module _ (P : Pingora) (R : Rate P.IpAddr) where
  abbrev pub max_req_per_sec : R.F64
  max_req_per_sec = R.of_nat 5

  -- The static limiter and the service's pool.
  pub record Globals : Type 0 where
    pub limiter : R.State
    pub pool : P.LoadBalancer

  abbrev observe : P.IpAddr → ℕ → Call P Globals (Unit {0}) ℕ
  observe addr n x =
      let (count, s) = R.observe addr n x.shared.limiter in
      (ok count, record x { shared = record x.shared { limiter = s } })

  unfoldable pub request_filter : Call P Globals (Unit {0}) Bool
  request_filter = do
    client ← client_ip P
    elim client [
      | none ↦ pure false
      | some addr ↦ do
        observe addr 1
        current_rate ← gets (λ x. R.rate addr x.shared.limiter)
        if R.gt current_rate max_req_per_sec then refuse P 429 else pure false
    ]

  unfoldable pub upstream_peer : Call P Globals (Unit {0}) (TunedPeer P)
  upstream_peer x = balanced_peer P x.shared.pool "sliding-window.cluster" x

-- `main`
unfoldable pub main : (O : Outside) → Main O (Unit {0})
main O = do
  new_server O
  bootstrap O
  let addresses : List String = "172.28.0.20:8080" ∷ "172.28.0.21:8080" ∷ []
  try_from_iter O addresses
  add_service O (http_proxy (some (pool_of (evenly addresses))) (tcp "0.0.0.0:6181" ∷ []))
  run_forever O
