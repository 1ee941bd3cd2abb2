-- ===== src/Middlewares/RequestSize/Checks.antt =====
-- src/middlewares/request_size.rs: the check of the declared length.
use pingora_guide.Base.{
  ℕ, ◌<◌, ◌≡◌, ◌⊎◌, inl, inr, refl, ap, ◌∙◌, String, some, arith, Outcome, ok, err, panic,
  Option-cases, Bool-cases, outcome-cases, ltb,
}
use pingora_guide.Error.{PingoraGuideError, gateway, size_limited}
use pingora_guide.Pingora.{Pingora}
use pingora_guide.Context.{get, insert, RequestSizeState, any_size}
use pingora_guide.Context.Laws.{IsTyped}
use pingora_guide.Request.{World}
use pingora_guide.Middleware.{MiddlewareDecision, continue, stop}
use pingora_guide.Middlewares.RequestSize.{RequestSize, reject, declared, handle_request}
use pingora_guide.Middlewares.RequestSize.Laws.{handle_request-counted}

module _ (P : Pingora) (self : RequestSize) where
  open P use {HeaderValue, Error, header, to_str, parse_usize, respond_error, error_text}

  -- A `Content-Length` that is text, is a number and is over the limit.
  pub record Over (session : P.Session) : Type 0 where
    pub value : HeaderValue
    pub sent : header session "Content-Length" ≡ some value
    pub len_str : String
    pub is_text : to_str value ≡ some len_str
    pub len : ℕ
    pub is_number : parse_usize len_str ≡ some len
    pub exceeded : self.max_bytes < len

  -- The outcome, from that of the answer to the client.
  abbrev pub stopped :
      Outcome Error (Unit {0}) → Outcome (PingoraGuideError Error) MiddlewareDecision
  stopped (ok _) = ok stop
  stopped (err e) = err (gateway (size_limited (error_text e)))
  stopped (panic message) = panic message

  -- The world with the counter of the body at zero.
  abbrev pub zeroed : World P → World P
  zeroed w = record w {
    ctx =
        (insert {E = PingoraGuideError Error} {T = RequestSizeState} (record { bytes_read = 0 })
          w.ctx).1;
  }

  -- The world with the answer 413 sent too.
  abbrev pub answered : World P → World P
  answered w = record (zeroed w) { session = (respond_error 413 w.session).1 }

  reject_lem :
      (w : World P)
      → reject P self (zeroed w) ≡ (stopped (respond_error 413 w.session).0, answered w)
  unfolding reject
  reject_lem w = elim (outcome-cases (respond_error 413 w.session).0) [
    | inl (_, sent) ↦ ground (arith, sent)
    | inr (inl (e, failed)) ↦ ground (arith, failed)
    | inr (inr (message, stops)) ↦ ground (arith, stops)
  ]

  declared-Over :
      (s : P.Session) → Over s → (n : ℕ) × (declared P self s ≡ some n) × (self.max_bytes < n)
  unfolding declared
  declared-Over s o = (o.len, ground (arith, o.sent, o.is_text, o.is_number), o.exceeded)

  Over-declared : (s : P.Session) {n : ℕ} → declared P self s ≡ some n → self.max_bytes < n → Over s
  unfolding declared
  Over-declared s {n} is_declared exceeded = elim (Option-cases (header s "Content-Length")) [
    | inl absent ↦ absurd (ground (arith, absent, is_declared))
    | inr (value, sent) ↦ elim (Option-cases (to_str value)) [
      | inl binary ↦ absurd (ground (arith, sent, binary, is_declared))
      | inr (len_str, is_text) ↦ record {
        value = value;
        sent = sent;
        len_str = len_str;
        is_text = is_text;
        len = n;
        is_number = ground (arith, sent, is_text, is_declared);
        exceeded = exceeded;
      }
    ]
  ]

  -- In a typed context the previous counter, if there is one, is replaced by zero without a panic.
  -- Then, exactly if the request has a `Content-Length` that is text, is a number and is over the
  -- limit, the client is sent 413 and the chain is stopped, or fails as over the limit where sending
  -- fails; otherwise the request goes on and the session is left as it is. However it ends, the
  -- context is left with the counter at zero.
  pub handle_request_checks :
      (w : World P)
      → IsTyped w.ctx
      → ((Over w.session
            × (handle_request P self w ≡ (stopped (respond_error 413 w.session).0, answered w)))
          ⊎ ((Over w.session → ⊥) × (handle_request P self w ≡ (ok continue, zeroed w))))
        × (get RequestSizeState (handle_request P self w).1.ctx ≡ some (record { bytes_read = 0 }))
  handle_request_checks w typed =
      let (run, stored) = handle_request-counted P self w typed in
      elim (Option-cases (declared P self w.session)) [
        | inl nothing ↦
            let goes : handle_request P self w ≡ (ok continue, zeroed w) =
              ground (arith, run, nothing) in
            (
              inr (
                (λ o.
                    let (n, there, _) = declared-Over w.session o in
                    ground (arith, nothing, there)),
                goes,
              ),
              ap (λ x. get RequestSizeState x.1.ctx) goes ∙ stored,
            )
        | inr (len, there) ↦ elim (Bool-cases (ltb self.max_bytes len)) [
          | inl over ↦
              let stops : handle_request P self w
                  ≡ (stopped (respond_error 413 w.session).0, answered w) =
                run ∙ rw (there, over) (reject_lem w) in
              (
                inl (Over-declared w.session there (ground (arith, over)), stops),
                ap (λ x. get RequestSizeState x.1.ctx) stops ∙ stored,
              )
          | inr within ↦
              let goes : handle_request P self w ≡ (ok continue, zeroed w) =
                run ∙ rw (there, within) refl in
              (
                inr (
                  (λ o.
                      let (n, found, over) = declared-Over w.session o in
                      ground (arith, there, found, over, within)),
                  goes,
                ),
                ap (λ x. get RequestSizeState x.1.ctx) goes ∙ stored,
              )
        ]
      ]
