-- ===== src/Lessons/StickySessions/Kept.antt =====
-- examples/29_sticky_sessions.rs: the session that a client sends back.
use Prim.Native.Char.{Char, code}
use pingora_guide.Base.{
  ℕ, ◌+◌, ◌%◌, ◌^◌, ◌≤◌, ◌≡◌, refl, ap, ◌∙◌, String, Bool, true, false, not, Option, none, some, [],
  ◌∷◌, arith, string_eq, nat_eq, unwrap_or, ◌&&◌,
}
use pingora_guide.Base.Text.{
  nil, cons, ◌<>◌, split, trim, trim_start, trim_end, keep, is_whitespace, starts_with, drop_prefix,
}
use pingora_guide.Base.Text.Laws.{Lacks, Lacks-append, lacks-Lacks, split_last, split-append}
use pingora_guide.Base.Text.Search.{is_empty, trim_start_matches, strip, text_len}
use pingora_guide.Pingora.{Pingora}
use pingora_guide.Error.{custom}
use pingora_guide.Lessons.Shared.{Exchange, on_header, TunedPeer, select_backend}
use pingora_guide.Base.{Outcome, ok, err, Option-cases, inl, inr}
use pingora_guide.Lessons.StickySessions.{
  find_session, session_of, cookie_value, Globals, sent_session, user_id, stuck_peer, upstream_peer,
  response_filter,
}

-- A text of decimal digits.
abbrev pub IsDigits : String → Type 0
IsDigits String.[] = Unit
IsDigits (String.◌∷◌ c s) = (48 ≤ code c) × (code c ≤ 57) × IsDigits s

digits_whole : (s : String) → IsDigits s → Lacks b';' s
digits_whole String.[] h = tt
digits_whole (String.◌∷◌ c s) (low, high, h) = ((λ e. omega (arith, e, high)), digits_whole s h)

-- No whitespace in the text.
abbrev solid : String → Bool
solid String.[] = true
solid (String.◌∷◌ c s) = not (is_whitespace c) && solid s

digits_solid : (s : String) → IsDigits s → solid s ≡ true
unfolding is_whitespace
digits_solid String.[] h = refl
digits_solid (String.◌∷◌ c s) (low, high, h) = ground (arith, low, high, digits_solid s h)

keep_solid : (c : Char) (s : String) → is_whitespace c ≡ false → keep c s ≡ cons c s
keep_solid c String.[] h = rw h refl
keep_solid c (String.◌∷◌ d s) h = refl

trim_end-solid : (s : String) → solid s ≡ true → trim_end s ≡ s
unfolding trim_end
trim_end-solid String.[] h = refl
trim_end-solid (String.◌∷◌ c s) h =
    rw (trim_end-solid s (ground (arith, h))) (keep_solid c s (ground (arith, h)))

session_whole : (id : String) → IsDigits id → Lacks b';' ("session-id=user-" <> id)
session_whole id h =
    Lacks-append b';' "session-id=user-" id (lacks-Lacks b';' "session-id=user-" refl)
      (digits_whole id h)

-- What a client keeps of a `Set-Cookie` header and sends back: the text before the first `;`.
unfoldable pub client_cookie : String → String
client_cookie set_cookie = elim (split b';' set_cookie) [ [] ↦ nil | ◌∷◌ pair rest ↦ pair ]

client_cookie_lem :
    (id : String)
    → IsDigits id
    → client_cookie (cookie_value ("user-" <> id)) ≡ "session-id=user-" <> id
unfolding client_cookie cookie_value ◌<>◌
client_cookie_lem id h =
    ap (λ ps. elim ps [ [] ↦ nil | ◌∷◌ pair rest ↦ pair ])
      (split-append ";" ("session-id=user-" <> id) " Path=/" (session_whole id h))

session_back : (id : String) → IsDigits id → session_of ("session-id=user-" <> id) ≡ "user-" <> id
unfolding session_of find_session trim_start_matches strip text_len starts_with drop_prefix trim
    trim_start is_whitespace ◌<>◌
session_back id h =
    ap find_session (split_last b';' ("session-id=user-" <> id) (session_whole id h))
    ∙ rw (trim_end-solid ("session-id=user-" <> id) (digits_solid id h)) refl

module _ (P : Pingora) where
  open P use {header, to_str, usize_to_string, insert_header}

  sent_back :
      ((n : ℕ) → IsDigits (usize_to_string n))
      → (session : P.Session) (cookie_val : P.HeaderValue) (n : ℕ)
      → header session "Cookie" ≡ some cookie_val
      → to_str cookie_val ≡ some (client_cookie (cookie_value (user_id P n)))
      → sent_session P session ≡ user_id P n
  unfolding sent_session user_id
  sent_back digits session cookie_val n sent kept =
      ap (λ o. elim o [ none ↦ nil | some v ↦ session_of (unwrap_or "" (to_str v)) ]) sent
      ∙ ap (λ o. session_of (unwrap_or "" o)) kept
      ∙ ap session_of (client_cookie_lem (usize_to_string n) (digits n))
      ∙ session_back (usize_to_string n) (digits n)

  id_given : (n : ℕ) → is_empty (user_id P n) ≡ false
  unfolding user_id ◌<>◌
  id_given n = refl

  -- The answer where the pool is asked for a backend by a key: a plain peer at that backend, or an error
  -- if there is none.
  abbrev pub peer_by :
      String → Exchange P (Globals P) (Option String) → Outcome P.Error (TunedPeer P)
  peer_by key x = elim (P.select x.calls x.shared.pool key 256) [
    | none ↦ err (P.explain (custom "NoUpstreamAvailable") "Empty upstream pool")
    | some b ↦ ok (record {
      base = P.new_peer b false "sticky.cluster";
      connection_timeout = none;
      read_timeout = none;
      write_timeout = none;
      idle_timeout = none;
      alpn = none;
      cert = none;
    })
  ]

  stuck_peer_lem :
      (id : String) (x : Exchange P (Globals P) (Option String))
      → stuck_peer P id x ≡ (peer_by id x, record x { calls = x.calls + 1 })
  unfolding stuck_peer select_backend
  stuck_peer_lem id x = elim (Option-cases (P.select x.calls x.shared.pool id 256)) [
    | inl nothing ↦ ground (arith, nothing)
    | inr (b, found) ↦ ground (arith, found)
  ]

  -- A request without a session id is given the next one, its backend is the one that the pool selects
  -- by it, and it goes out in `Set-Cookie`. For any later request that sends back what a client keeps of
  -- that header, the pool selects by the same id, and no new one is given. An empty pool is an error.
  -- Numbers are taken to print as decimal digits.
  pub sticky_peer :
      ((n : ℕ) → IsDigits (usize_to_string n))
      → (x y : Exchange P (Globals P) (Option String)) (cookie_val : P.HeaderValue)
      → sent_session P x.session ≡ nil
      → header y.session "Cookie" ≡ some cookie_val
      → to_str cookie_val ≡ some (client_cookie (cookie_value (user_id P x.shared.session_counter)))
      → let id = user_id P x.shared.session_counter in
        let x' = record x {
          ctx = some id;
          shared = record x.shared { session_counter = (x.shared.session_counter + 1) % 2 ^ 64 };
        } in
        (upstream_peer P x ≡ (peer_by id x', record x' { calls = x.calls + 1 }))
        × ((h : P.Header)
            → response_filter P (x', h)
              ≡ on_header P (insert_header "Set-Cookie" (cookie_value id)) (x', h))
        × (upstream_peer P y ≡ (peer_by id y, record y { calls = y.calls + 1 }))
  unfolding upstream_peer response_filter
  sticky_peer digits x y cookie_val none_sent sent kept =
      let same = sent_back digits y.session cookie_val x.shared.session_counter sent kept in
      let id = user_id P x.shared.session_counter in
      let x' : Exchange P (Globals P) (Option String) = record x {
        ctx = some id;
        shared = record x.shared { session_counter = (x.shared.session_counter + 1) % 2 ^ 64 };
      } in
      (
        rw none_sent (stuck_peer_lem id x'),
        λ h. refl,
        rw (same, id_given x.shared.session_counter) (stuck_peer_lem id y),
      )
