-- ===== src/Lessons/Balancing/CustomHealthCheck/Healthy.antt =====
-- examples/32_custom_health_check.rs: when a backend passes the check.
use pingora_guide.Base.{
  ℕ, ◌≡◌, ◌↔◌, String, true, some, ok, arith, outcome-cases, made-cases, Option-cases, Bool-cases,
  inl, inr,
}
use pingora_guide.Base.Text.Search.{contains}
use pingora_guide.Pingora.{Pingora}
use pingora_guide.Lessons.Shared.Tcp.{Tcp}
use pingora_guide.Lessons.Balancing.CustomHealthCheck.{BodyMatchCheck, request_of, talk, check}

module _ (P : Pingora) (T : Tcp P.InetAddr) where
  -- The dialogue with a healthy backend.
  pub record Healthy (self : BodyMatchCheck) (target : P.Backend) (call : ℕ) : Type 0 where
    pub addr : P.InetAddr
    pub at : P.as_inet (P.backend_addr target) ≡ some addr
    pub stream : T.Socket
    pub reached : T.connect_within 1000000000 call addr ≡ ok stream
    pub asked : T.Socket
    pub written : T.write_all (request_of self.host) stream ≡ (ok tt, asked)
    pub text : String
    pub read : T.Socket
    pub answered : T.read_within 1000000000 1024 asked ≡ (ok text, read)
    pub expected : contains text self.expected_string ≡ true

  talk-passes :
      (self : BodyMatchCheck) (stream : T.Socket)
      → (talk P T self stream).0 ≡ ok tt
      → (asked : T.Socket) × (text : String) × (read : T.Socket) × (T.write_all
            (request_of self.host)
            stream
          ≡ (ok tt, asked))
        × (T.read_within 1000000000 1024 asked ≡ (ok text, read))
        × (contains text self.expected_string ≡ true)
  unfolding talk
  talk-passes self stream passed = elim (made-cases (T.write_all (request_of self.host) stream)) [
    | inr failed ↦ absurd (ground arith)
    | inl ((_, asked), written) ↦ elim (made-cases (T.read_within 1000000000 1024 asked)) [
      | inr failed ↦ absurd (ground arith)
      | inl ((text, read), answered) ↦ elim (Bool-cases (contains text self.expected_string)) [
        | inr absent ↦ absurd (ground arith)
        | inl there ↦ (asked, text, read, written, answered, there)
      ]
    ]
  ]

  -- The check of a backend succeeds exactly if the backend, at a TCP address, is reached within a
  -- second, takes the request, and answers within a second with a text that contains the one that is
  -- expected.
  pub check-Healthy :
      (self : BodyMatchCheck) (target : P.Backend) (call : ℕ)
      → check P T self target call ≡ ok tt ↔ Healthy self target call
  unfolding check talk
  check-Healthy self target call = (
    λ passed. elim (Option-cases (P.as_inet (P.backend_addr target))) [
      | inl elsewhere ↦ absurd (ground arith)
      | inr (addr, at) ↦ elim (outcome-cases (T.connect_within 1000000000 call addr)) [
        | inr (inl (e, failed)) ↦ absurd (ground arith)
        | inr (inr (m, stopped)) ↦ absurd (ground arith)
        | inl (stream, reached) ↦
            let (asked, text, read, written, answered, there) =
              talk-passes self stream (ground arith) in
            record {
              addr = addr;
              at = at;
              stream = stream;
              reached = reached;
              asked = asked;
              written = written;
              text = text;
              read = read;
              answered = answered;
              expected = there;
            }
      ]
    ],
    λ h. ground (arith, h.at, h.reached, h.written, h.answered, h.expected),
  )
