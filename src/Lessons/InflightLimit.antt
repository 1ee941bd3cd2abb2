-- ===== src/Lessons/InflightLimit.antt =====
-- examples/38_inflight_limit.rs: at most two requests at a time go upstream.
pub mod Bound
use pingora_guide.Base.{
  ℕ, String, Bool, true, false, ltb, Option, none, some, Outcome, ok, Act, pure, ◌>>=◌, ◌>>◌,
  if◌then◌else◌,
}
use pingora_guide.Pingora.{Pingora}
use pingora_guide.Lessons.Shared.{TunedPeer, untuned, Call, on_session, set_ctx, select_backend}
use pingora_guide.Base.{List, [], ◌∷◌}
use pingora_guide.Lessons.Mains.Server.{
  Main, Outside, new_server, bootstrap, add_service, run_forever, http_proxy, tcp, try_from_iter,
  pool_of, evenly,
}

-- `pingora_limits::inflight::Inflight`: `incr` gives a guard and the count with it, and a guard that
-- is dropped takes its amount off again.
pub record Inflight (Guard : Type 0) : Type 1 where
  pub State : Type 0
  pub count : String → State → ℕ
  pub incr : String → ℕ → State → (Guard × ℕ) × State
  pub drop : Guard → State → State

-- How a request leaves the first, atomic part of `request_filter`: its guard goes to the context, or
-- is held until the answer is sent.
pub data Entered (Guard : Type 0) : Type 0 where
  admitted refused : Guard → Entered Guard

abbrev pub guard_of : {Guard : Type 0} → Entered Guard → Guard
guard_of (admitted g) = g
guard_of (refused g) = g

abbrev pub max_concurrent_req : ℕ
max_concurrent_req = 2

module _ (P : Pingora) (I : Inflight P.Guard) where
  open P use {respond_error}

  -- The static limiter and the service's pool.
  pub record Globals : Type 0 where
    pub limiter : I.State
    pub pool : P.LoadBalancer

  abbrev pub new_ctx : Option P.Guard
  new_ctx = none

  -- From the start of `request_filter` to its first `await`.
  unfoldable pub enter : I.State → Entered P.Guard × I.State
  enter s =
      let ((guard, count), s') = I.incr "global_limit" 1 s in
      (if ltb max_concurrent_req count then refused guard else admitted guard, s')

  abbrev enter_call : Call P Globals (Option P.Guard) (Entered P.Guard)
  enter_call x =
      let (e, s) = enter x.shared.limiter in
      (ok e, record x { shared = record x.shared { limiter = s } })

  -- `drop`, which Rust runs on every way out.
  abbrev holding :
      {A : Type 0} → P.Guard → Call P Globals (Option P.Guard) A → Call P Globals (Option P.Guard) A
  holding guard m x =
      let (r, y) = m x in
      (r, record y { shared = record y.shared { limiter = I.drop guard y.shared.limiter } })

  unfoldable pub request_filter : Call P Globals (Option P.Guard) Bool
  unfolding enter
  request_filter = do
    entered ← enter_call
    elim entered [
      | refused guard ↦ holding guard (on_session P (respond_error 429) >> pure true)
      | admitted guard ↦ set_ctx P (some guard) >> pure false
    ]

  -- The sleep of two seconds before the peer is made changes nothing.
  unfoldable pub upstream_peer : Call P Globals (Option P.Guard) (TunedPeer P)
  upstream_peer x =
      (do
        upstream ← select_backend P x.shared.pool "" "Empty upstream pool"
        pure (untuned P (P.new_peer upstream false "inflight.cluster")))
        x

-- `main`
unfoldable pub main : (O : Outside) → Main O (Unit {0})
main O = do
  new_server O
  bootstrap O
  let addresses : List String = "172.28.0.20:8080" ∷ "172.28.0.21:8080" ∷ []
  try_from_iter O addresses
  add_service O (http_proxy (some (pool_of (evenly addresses))) (tcp "0.0.0.0:6182" ∷ []))
  run_forever O
