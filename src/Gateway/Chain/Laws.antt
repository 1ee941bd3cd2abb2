-- ===== src/Gateway/Chain/Laws.antt =====
-- src/gateway.rs: who decides in the loops over the middlewares.
use pingora_guide.Base.{
  ◌≡◌, refl, ◌≢◌, ◌∙◌, List, [], ◌∷◌, ◌++◌, arith, All, Outcome, ok, err, panic, map_err,
}
use pingora_guide.Error.{PingoraGuideError}
use pingora_guide.Pingora.{Pingora}
use pingora_guide.Request.{into_error}
use pingora_guide.Middleware.{Middleware, MiddlewareDecision, continue, stop}
use pingora_guide.Gateway.Chain.{Hook, run_chain, run_lenient}

module _ (P : Pingora) where
  open P use {Error}

  -- The middlewares of a list, called in order from one state, all continue and reach another.
  pub data Passes {S : Type 0} (hook : Hook P S) : List (Middleware P) → S → S → Type 0 where
    done : {s : S} → Passes hook [] s s
    pass :
        {m : Middleware P} {ms : List (Middleware P)} {s t u : S}
        → hook m s ≡ (ok continue, t)
        → Passes hook ms t u
        → Passes hook (m ∷ ms) s u

  -- The same where an error counts as `continue`.
  pub data PassesLenient {S : Type 0} (hook : Hook P S) : List (Middleware P) → S → S → Type 0 where
    done : {s : S} → PassesLenient hook [] s s
    pass :
        {m : Middleware P} {ms : List (Middleware P)} {s t u : S}
        → hook m s ≡ (ok continue, t)
        → PassesLenient hook ms t u
        → PassesLenient hook (m ∷ ms) s u
    skip :
        {m : Middleware P} {ms : List (Middleware P)} {s t u : S} {e : PingoraGuideError Error}
        → hook m s ≡ (err e, t)
        → PassesLenient hook ms t u
        → PassesLenient hook (m ∷ ms) s u

  module _ {S : Type 0} (hook : Hook P S) where
    pub run_chain-Passes :
        {ms : List (Middleware P)} {s t : S}
        → Passes hook ms s t
        → (rest : List (Middleware P)) → run_chain P hook (ms ++ rest) s ≡ run_chain P hook rest t
    unfolding run_chain
    run_chain-Passes done rest = refl
    run_chain-Passes (pass called p) rest = ground (arith, run_chain-Passes p rest)

    run_lenient-PassesLenient :
        {ms : List (Middleware P)} {s t : S}
        → PassesLenient hook ms s t
        → (rest : List (Middleware P))
        → run_lenient P hook (ms ++ rest) s ≡ run_lenient P hook rest t
    unfolding run_lenient
    run_lenient-PassesLenient done rest = refl
    run_lenient-PassesLenient (pass called p) rest =
        ground (arith, run_lenient-PassesLenient p rest)
    run_lenient-PassesLenient (skip called p) rest =
        ground (arith, run_lenient-PassesLenient p rest)

    -- Where all middlewares before one continue and that one does not, its outcome and the state
    -- that it leaves are those of the loop, its error converted: no later middleware is called.
    pub run_chain_halts :
        {ms : List (Middleware P)} (m : Middleware P) (rest : List (Middleware P)) {s t : S}
        → Passes hook ms s t
        → (hook m t).0 ≢ ok continue
        → run_chain P hook (ms ++ (m ∷ rest)) s ≡ map_err (into_error P) (hook m) t
    unfolding run_chain
    run_chain_halts m rest p halts = run_chain-Passes p (m ∷ rest) ∙ ground arith

    -- In `logging` and `fail_to_proxy` an error counts as `Continue`: the first middleware that
    -- stops, after ones that continue or fail, ends the loop, and no later one is called.
    pub run_lenient_halts :
        {ms : List (Middleware P)} {m : Middleware P} {s t u : S} (rest : List (Middleware P))
        → PassesLenient hook ms s t
        → hook m t ≡ (ok stop, u)
        → run_lenient P hook (ms ++ (m ∷ rest)) s ≡ (ok stop, u)
    unfolding run_lenient
    run_lenient_halts {m} rest p called = run_lenient-PassesLenient p (m ∷ rest) ∙ ground arith

    chain_step {ℓ} :
        (I : S → Type ℓ) (m : Middleware P) (ms : List (Middleware P))
        → ((t : S) → I t → I (run_chain P hook ms t).1)
        → (s : S) → I (hook m s).1
        → I (run_chain P hook (m ∷ ms) s).1
    unfolding run_chain
    chain_step I m ms rest s kept = after (hook m s).0
      where
        after :
            (r : Outcome (PingoraGuideError Error) MiddlewareDecision)
            → I
                (elim r as (λ x. Outcome Error MiddlewareDecision × S) [
                  | ok d ↦ elim d [
                    | stop ↦ (ok stop, (hook m s).1)
                    | continue ↦ run_chain P hook ms (hook m s).1
                  ]
                  | err e ↦ (err (into_error P e), (hook m s).1)
                  | panic message ↦ (panic message, (hook m s).1)
                ]).1
        after (ok stop) = kept
        after (ok continue) = rest (hook m s).1 kept
        after (err e) = kept
        after (panic message) = kept

    -- What every middleware keeps, a loop keeps, on all outcomes.
    pub run_chain_inv {ℓ} :
        (I : S → Type ℓ) (ms : List (Middleware P))
        → All (λ m. (s : S) → I s → I (hook m s).1) ms
        → (s : S) → I s
        → I (run_chain P hook ms s).1
    unfolding run_chain
    run_chain_inv I [] keep s h = h
    run_chain_inv I (m ∷ ms) (keep, rest) s h =
        chain_step I m ms (λ t. run_chain_inv I ms rest t) s (keep s h)
