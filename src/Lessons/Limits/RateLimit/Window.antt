-- ===== src/Lessons/Limits/RateLimit/Window.antt =====
-- examples/36_basic_rate_limit.rs: the requests of one window, from many addresses.
use pingora_guide.Base.{
  ℕ, suc, ◌+◌, ◌-◌, ◌≡◌, ap, ◌∙◌, ◌≢◌, Bool, true, false, some, List, [], ◌∷◌, Outcome, ok, err,
  panic, Eq, ◌==◌, arith, All, leb, ltb, if◌then◌else◌, Bool-cases, inl, inr,
}
use pingora_guide.Pingora.{Pingora}
use pingora_guide.Lessons.Shared.{Exchange, client_ip}
use pingora_guide.Lessons.Limits.RateLimit.{Rate, Globals, request_filter}

-- What is relied on of the limiter within one window: that it counts each address on its own, as it does
-- while no two addresses meet in its table.
pub record IsWindow {IpAddr : Type 0} (R : Rate IpAddr) (count : IpAddr → R.State → ℕ)
    : Type 0 where
  pub observe_count : (a : IpAddr) (s : R.State) → (R.observe a 1 s).0 ≡ count a s + 1
  pub observe_state : (a : IpAddr) (s : R.State) → count a (R.observe a 1 s).1 ≡ count a s + 1
  pub observe_other : (a b : IpAddr) (s : R.State) → a ≢ b → count b (R.observe a 1 s).1 ≡ count b s

abbrev pub passed : {E : Type 0} → Outcome E Bool → Bool
passed (ok false) = true
passed (ok true) = false
passed (err e) = false
passed (panic message) = false

abbrev pub min : ℕ → ℕ → ℕ
min a b = if leb a b then a else b

module _ (P : Pingora) (R : Rate P.IpAddr) where
  -- The client's address, as the session gives it.
  pub record IsFrom (a : P.IpAddr) (session : P.Session) : Type 0 where
    pub socket : P.SocketAddr
    pub inet : P.InetAddr
    pub has_client : P.client_addr session ≡ some socket
    pub is_inet : P.as_inet socket ≡ some inet
    pub has_ip : P.ip inet ≡ a

  abbrev arrival : P.Session → Globals P R → Exchange P (Globals P R) (Unit {0})
  arrival session g = record { session = session; ctx = tt; shared = g; calls = 0 }

  module _ ⦃e : Eq P.IpAddr⦄ where
    -- How many requests of an address pass, of all that arrive one after another, and how many it sent.
    unfoldable pub admitted : P.IpAddr → List (P.IpAddr × P.Session) → Globals P R → ℕ
    admitted a [] g = 0
    admitted a ((b, session) ∷ rest) g =
        let (r, x) = request_filter P R (arrival session g) in
        let others = admitted a rest x.shared in
        if b == a then (if passed r then suc others else others) else others

    unfoldable pub sent : P.IpAddr → List (P.IpAddr × P.Session) → ℕ
    sent a [] = 0
    sent a ((b, session) ∷ rest) = let others = sent a rest in if b == a then suc others else others

    module _ (count : P.IpAddr → R.State → ℕ) (window : IsWindow R count) where
      client_ip_lem :
          (b : P.IpAddr) (session : P.Session) (g : Globals P R)
          → IsFrom b session
          → client_ip P (arrival session g) ≡ (ok (some b), arrival session g)
      unfolding client_ip
      client_ip_lem b session g from = ground (arith, from.has_client, from.is_inet, from.has_ip)

      request_filter_lem :
          (b : P.IpAddr) (session : P.Session) (g : Globals P R)
          → IsFrom b session
          → (passed (request_filter P R (arrival session g)).0 ≡ ltb (count b g.limiter) 5)
            × ((request_filter P R (arrival session g)).1.shared.limiter
                ≡ (R.observe b 1 g.limiter).1)
      unfolding request_filter
      request_filter_lem b session g from =
          let client = client_ip_lem b session g from in
          (ground (arith, client, window.observe_count b g.limiter), ground (arith, client))

      -- Of the requests of one window, in any mixture of addresses, an address gets exactly as many through
      -- as it sent, or as were left to it of five, whichever is less, if the limiter counts each address on
      -- its own.
      pub admitted-min :
          (a : P.IpAddr) (requests : List (P.IpAddr × P.Session)) (g : Globals P R)
          → All (λ (b, session). IsFrom b session) requests
          → admitted a requests g ≡ min (sent a requests) (5 - count a g.limiter)
      unfolding admitted sent
      admitted-min a [] g froms = ground arith
      admitted-min a ((b, session) ∷ rest) g (from, froms) =
          let (passes, counts) = request_filter_lem b session g from in
          let later = admitted-min a rest (request_filter P R (arrival session g)).1.shared froms in
          elim (Bool-cases (b == a)) [
            | inl same ↦
                let here : b ≡ a = (e.beq_iff b a).0 same in
                let counted : count a (request_filter P R (arrival session g)).1.shared.limiter
                    ≡ count a g.limiter + 1 =
                  ap (count a) counts
                  ∙ ap (λ c. count a (R.observe c 1 g.limiter).1) here
                  ∙ window.observe_state a g.limiter in
                let alike : count b g.limiter ≡ count a g.limiter =
                  ap (λ c. count c g.limiter) here in
                rw same (ground (arith, passes, later, counted, alike))
            | inr other ↦
                let apart : count a (request_filter P R (arrival session g)).1.shared.limiter
                    ≡ count a g.limiter =
                  ap (count a) counts
                  ∙ window.observe_other b a g.limiter
                      (λ h. ground (arith, e.beq_iff b a, other, h)) in
                rw other (ground (arith, later, apart))
          ]
