-- ===== src/Middlewares/RequestSize/Laws.antt =====
-- src/middlewares/request_size.rs: the two checks of the limit, over all the chunks of a body.
use pingora_guide.Base.{
  ℕ, ◌+◌, ◌%◌, ◌≤◌, ◌<◌, ◌≡◌, refl, ap, ◌∙◌, ◌≢◌, ◌↔◌, Bool, false, Option, none, some, List, [],
  ◌∷◌, arith, ok, err, panic, ltb, if◌then◌else◌,
}
use native.Mathlib.Nat.{mod-eq_of_lt, add_assoc}
use native.Mathlib.Decide.{dec_lt}
use pingora_guide.Error.{PingoraGuideError}
use pingora_guide.Pingora.{Pingora}
use pingora_guide.Context.{get, insert, RequestSizeState, default_size_state, any_size}
use pingora_guide.Context.Laws.{IsTyped, insert_replaces, get-insert_self, get_mut-of_get}
use pingora_guide.Request.{World, Handler}
use pingora_guide.Middleware.{MiddlewareDecision, continue, stop}
use pingora_guide.Middlewares.RequestSize.{
  RequestSize, usize_mod, reject, declared, handle_request, handle_request_body,
}

abbrev pub exceeds : ℕ → Option ℕ → Bool
exceeds limit none = false
exceeds limit (some len) = ltb limit len

module _ (P : Pingora) (self : RequestSize) where
  open P use {Bytes, bytes_len, Error}

  -- The world after the counter of the request is set to zero.
  abbrev pub counted : World P → World P
  counted w = record w { ctx = (insert {E = PingoraGuideError Error} default_size_state w.ctx).1 }

  pub handle_request-counted :
      (w : World P)
      → IsTyped w.ctx
      → (handle_request P self w ≡ (
          if exceeds self.max_bytes (declared P self w.session)
          then reject P self (counted w)
          else (ok continue, counted w)))
        × (get RequestSizeState (counted w).ctx ≡ some default_size_state)
  unfolding handle_request
  handle_request-counted w typed =
      let (done, stored, _) =
        insert_replaces (PingoraGuideError Error) default_size_state w.ctx typed in
      (ground (arith, done), stored)

  abbrev pub total : List Bytes → ℕ
  total [] = 0
  total (b ∷ bs) = bytes_len b + total bs

  -- The calls of `handle_request_body` for the chunks of a body, up to the first that does not
  -- continue.
  pub feed : List Bytes → Handler P MiddlewareDecision
  feed [] w = (ok continue, w)
  feed (b ∷ bs) w =
      let (r, w') = handle_request_body P self false (w, some b) in
      elim r [
        | ok d ↦ elim d [ continue ↦ feed bs w'.0 | stop ↦ (ok stop, w'.0) ]
        | err e ↦ (err e, w'.0)
        | panic message ↦ (panic message, w'.0)
      ]

  feed_step :
      (b : Bytes) (bs : List Bytes) (w : World P) {n : ℕ}
      → get RequestSizeState w.ctx ≡ some (record { bytes_read = n })
      → n + bytes_len b < self.max_bytes
      → n + bytes_len b < usize_mod
      → (w' : World P) × (feed (b ∷ bs) w ≡ feed bs w')
        × (get RequestSizeState w'.ctx ≡ some (record { bytes_read = n + bytes_len b }))
        × (w'.session ≡ w.session)
  unfolding feed handle_request_body
  feed_step b bs w {n} found low fits =
      let state : RequestSizeState = record { bytes_read = n + bytes_len b } in
      let c = (insert {E = Error} state w.ctx).1 in
      let same : (n + bytes_len b) % usize_mod ≡ n + bytes_len b = mod-eq_of_lt fits in
      (
        record w { ctx = c },
        ground (arith, get_mut-of_get Error RequestSizeState w.ctx found, same),
        get-insert_self Error state w.ctx,
        refl,
      )

  -- A body that stays below the limit, and within 64 bits, goes through: the counter has grown by
  -- the bytes of all its chunks and the client is sent nothing.
  pub feed_accepts :
      (bs : List Bytes) (w : World P) {n : ℕ}
      → get RequestSizeState w.ctx ≡ some (record { bytes_read = n })
      → n + total bs < self.max_bytes
      → n + total bs < usize_mod
      → (w' : World P) × (feed bs w ≡ (ok continue, w'))
        × (get RequestSizeState w'.ctx ≡ some (record { bytes_read = n + total bs }))
        × (w'.session ≡ w.session)
  unfolding feed
  feed_accepts [] w {n} found low fits = (w, refl, ground arith, refl)
  feed_accepts (b ∷ bs) w {n} found low fits =
      let (w₁, step, found₁, same₁) = feed_step b bs w found (omega arith) (omega arith) in
      let (w₂, rest, found₂, same₂) = feed_accepts bs w₁ found₁ (omega arith) (omega arith) in
      (w₂, step ∙ rest, rw (← add_assoc n (bytes_len b) (total bs)) found₂, same₂ ∙ same₁)

  feed_stop :
      (b : Bytes) (bs : List Bytes) (w : World P) {n : ℕ}
      → get RequestSizeState w.ctx ≡ some (record { bytes_read = n })
      → self.max_bytes ≤ n + bytes_len b
      → n + bytes_len b < usize_mod
      → (feed (b ∷ bs) w).0 ≢ ok continue
  unfolding feed handle_request_body reject
  feed_stop b bs w {n} found over fits =
      let same : (n + bytes_len b) % usize_mod ≡ n + bytes_len b = mod-eq_of_lt fits in
      ground (arith, get_mut-of_get Error RequestSizeState w.ctx found, same)

  feed_refuses :
      (bs : List Bytes) (w : World P) {n : ℕ}
      → get RequestSizeState w.ctx ≡ some (record { bytes_read = n })
      → n < self.max_bytes
      → self.max_bytes ≤ n + total bs
      → n + total bs < usize_mod
      → (feed bs w).0 ≢ ok continue
  feed_refuses [] w {n} found below over fits = absurd (omega arith)
  feed_refuses (b ∷ bs) w {n} found below over fits =
      elim (dec_lt (n + bytes_len b) self.max_bytes) [
        | yes low ↦
            let (w₁, step, found₁, _) = feed_step b bs w found low (omega arith) in
            rw step (feed_refuses bs w₁ found₁ low (omega arith) (omega arith))
        | no high ↦ feed_stop b bs w found (omega arith) (omega arith)
      ]

  -- From a count below the limit, and while the count fits into 64 bits, the chunks of a body all
  -- go through exactly when the count stays below the limit.
  pub feed_continues_iff :
      (bs : List Bytes) (w : World P) {n : ℕ}
      → get RequestSizeState w.ctx ≡ some (record { bytes_read = n })
      → n < self.max_bytes
      → n + total bs < usize_mod
      → ((feed bs w).0 ≡ ok continue) ↔ (n + total bs < self.max_bytes)
  feed_continues_iff bs w {n} found below fits = (
    λ through. elim (dec_lt (n + total bs) self.max_bytes) [
      | yes low ↦ low
      | no high ↦ absurd (feed_refuses bs w found below (omega arith) fits through)
    ],
    λ low. let (w', run, _, _) = feed_accepts bs w found low fits in ap (λ x. x.0) run,
  )

  -- A body of exactly the limit, declared as such: the check of the header lets the request through,
  -- and the check of the stream then refuses the body.
  pub exact_limit_refused :
      (bs : List Bytes) (w : World P)
      → IsTyped w.ctx
      → declared P self w.session ≡ some self.max_bytes
      → total bs ≡ self.max_bytes
      → 0 < self.max_bytes
      → self.max_bytes < usize_mod
      → (handle_request P self w ≡ (ok continue, counted w))
        × ((feed bs (counted w)).0 ≢ ok continue)
  exact_limit_refused bs w typed length_sent all_sent positive fits =
      let (checked, stored) = handle_request-counted w typed in
      (
        ground (arith, checked),
        feed_refuses bs (counted w) stored positive (omega arith) (omega arith),
      )
