-- ===== src/Lessons/BodyInspection.antt =====
-- examples/12_body_inspection.rs: a request body that holds a forbidden word, over its chunks.
use mathlib.Core.List.{append-nil, append_assoc}
use pingora_guide.Base.{
  sym, ◌∙◌, ℕ, ◌≡◌, ap, String, true, false, Option, none, some, List, [], ◌∷◌, ◌++◌, ok, err, pure,
  throw, ◌>>=◌, ◌>>◌, gets, arith, Bool-cases, inl, inr, if◌then◌else◌,
}
use pingora_guide.Base.Text.{starts_with}
use pingora_guide.Base.Text.Search.{contains}
use pingora_guide.Error.{custom}
use pingora_guide.Pingora.{Pingora}
use pingora_guide.Lessons.Shared.{TunedPeer, untuned, Exchange, Call, set_ctx, connect_to}
use pingora_guide.Lessons.Mains.Server.{
  Main, Outside, new_server, bootstrap, add_service, run_forever, http_proxy, tcp,
}

-- The bytes of a `Vec<u8>` or a `Bytes`.
abbrev pub Buffer : Type 0
Buffer = List ℕ

module _ (P : Pingora) where
  abbrev pub new_ctx : Buffer
  new_ctx = []

  unfoldable pub upstream_peer : Call P (Unit {0}) Buffer (TunedPeer P)
  upstream_peer x =
      (do
        base ← connect_to P ("172.28.0.20", 8080) false "blue.pingora.local"
        pure (untuned P base))
        x

-- `String::from_utf8_lossy`
module _ (P : Pingora) (from_utf8_lossy : Buffer → String) where
  unfoldable pub request_body_filter : Option Buffer → Call P (Unit {0}) Buffer (Unit {0})
  request_body_filter none = pure tt
  request_body_filter (some bytes) = do
    buffer ← gets (λ x. x.ctx)
    set_ctx P (buffer ++ bytes)
    content ← gets (λ x. from_utf8_lossy x.ctx)
    if contains content "rogue"
        then throw (P.new_error (custom "SecurityPolicyViolation"))
        else pure tt

  -- The framework's calls for one body: one for each chunk, until one fails.
  unfoldable pub inspect : List (Option Buffer) → Call P (Unit {0}) Buffer (Unit {0})
  inspect [] = pure tt
  inspect (c ∷ cs) = request_body_filter c >> inspect cs

-- The body that the chunks make up.
unfoldable pub body_of : List (Option Buffer) → Buffer
body_of [] = []
body_of (none ∷ cs) = body_of cs
body_of (some bytes ∷ cs) = bytes ++ body_of cs

-- What is relied on of `from_utf8_lossy`: no bytes read as no text, and a word of plain letters that is
-- found in a text is still found when bytes follow.
pub record IsLossy (from_utf8_lossy : Buffer → String) : Type 0 where
  pub empty : from_utf8_lossy [] ≡ ""
  pub longer :
      (b c : Buffer)
      → contains (from_utf8_lossy b) "rogue" ≡ true
      → contains (from_utf8_lossy (b ++ c)) "rogue" ≡ true

module _ (P : Pingora) (from_utf8_lossy : Buffer → String) (lossy : IsLossy from_utf8_lossy) where
  inspect_from :
      (cs : List (Option Buffer)) (x : Exchange P (Unit {0}) Buffer)
      → contains (from_utf8_lossy x.ctx) "rogue" ≡ false
      → (inspect P from_utf8_lossy cs x).0 ≡ (
          if contains (from_utf8_lossy (x.ctx ++ body_of cs)) "rogue"
          then err (P.new_error (custom "SecurityPolicyViolation"))
          else ok tt)
  unfolding inspect request_body_filter body_of
  inspect_from [] x clean = rw (append-nil x.ctx) (ground (arith, clean))
  inspect_from (none ∷ cs) x clean = inspect_from cs x clean
  inspect_from (some bytes ∷ cs) x clean =
      elim (Bool-cases (contains (from_utf8_lossy (x.ctx ++ bytes)) "rogue")) [
        | inl found ↦
            let stays = lossy.longer (x.ctx ++ bytes) (body_of cs) found in
            rw (sym (append_assoc x.ctx bytes (body_of cs))) (ground (arith, found, stays))
        | inr not_found ↦ rw (sym (append_assoc x.ctx bytes (body_of cs))) (
            ground
              (arith, not_found, inspect_from cs (record x { ctx = x.ctx ++ bytes }) not_found))
      ]

  -- However a body is cut into chunks, some of them empty calls, a new request's body is refused as a
  -- policy violation exactly if the text of the whole body contains the forbidden word, and passes
  -- otherwise.
  pub inspect-body_of :
      (cs : List (Option Buffer)) (x : Exchange P (Unit {0}) Buffer)
      → x.ctx ≡ new_ctx P
      → (inspect P from_utf8_lossy cs x).0 ≡ (
          if contains (from_utf8_lossy (body_of cs)) "rogue"
          then err (P.new_error (custom "SecurityPolicyViolation"))
          else ok tt)
  unfolding contains starts_with
  inspect-body_of cs x fresh =
      inspect_from cs x (
        ap (λ b. contains (from_utf8_lossy b) "rogue") fresh
        ∙ ap (λ t. contains t "rogue") lossy.empty)
      ∙ ap
          (λ b.
            if contains (from_utf8_lossy (b ++ body_of cs)) "rogue"
            then err (P.new_error (custom "SecurityPolicyViolation"))
            else ok tt)
          fresh

-- `main`
unfoldable pub main : (O : Outside) → Main O (Unit {0})
main O = do
  new_server O
  bootstrap O
  add_service O (http_proxy none (tcp "0.0.0.0:6152" ∷ []))
  run_forever O
