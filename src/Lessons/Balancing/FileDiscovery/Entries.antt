-- ===== src/Lessons/Balancing/FileDiscovery/Entries.antt =====
-- examples/34_service_discovery_file.rs: the backends of a file, as a set.
use mathlib.Core.Quot
use pingora_guide.Base.{
  ℕ, ◌+◌, ◌≡◌, ◌≢◌, refl, ap, ◌∙◌, String, true, ◌||◌, List, [], ◌∷◌, Outcome, ok, err, panic,
  arith, any, if◌then◌else◌, Bool-cases, outcome-cases, inl, inr,
}
use pingora_guide.Base.Text.{trim, starts_with}
use pingora_guide.Base.Text.Search.{is_empty, lines}
use pingora_guide.Pingora.{Pingora}
use pingora_guide.Upstreams.Factory.Sets.{set_of, as_set, any-insert}
use pingora_guide.Lessons.Balancing.FileDiscovery.{insert, add_lines, discover}

-- The entries of a file: its lines without the space around them, but no blank ones and no comments.
abbrev pub entries : List String → List String
entries [] = []
entries (line ∷ rest) =
    if is_empty (trim line) || starts_with (trim line) "#"
    then entries rest
    else trim line ∷ entries rest

module _ (P : Pingora) where
  open P use {InetAddr, Backend, backend, same_backend}

  -- The backend of an entry: its first address, if it has one.
  abbrev of_addrs : Outcome String (List InetAddr) → List Backend → List Backend
  of_addrs (ok []) rest = rest
  of_addrs (ok (addr ∷ addrs)) rest = backend addr 1 ∷ rest
  of_addrs (err e) rest = rest
  of_addrs (panic message) rest = rest

  -- The backends of the entries, which are looked up one after the other.
  abbrev pub backends_of : ℕ → List String → List Backend
  backends_of n [] = []
  backends_of n (entry ∷ rest) = of_addrs (P.to_socket_addrs n entry) (backends_of (n + 1) rest)

  -- A look-up does not panic, and backends that are the same are the same as the same ones.
  module _ (looks_up : (n : ℕ) (entry message : String) → P.to_socket_addrs n entry ≢ panic message)
      (same_both : (a b : Backend)
        → same_backend a b ≡ true
        → (c : Backend) → same_backend c a ≡ same_backend c b) where
    any-add :
        (b : Backend) (bs : List Backend) (c : Backend)
        → any (same_backend c) (insert P b bs) ≡ (same_backend c b || any (same_backend c) bs)
    unfolding insert pingora_guide.Upstreams.Factory.insert
    any-add b bs c = any-insert P same_both b bs c

    add_lines_finds :
        (ls : List String) (acc : List Backend) (n : ℕ)
        → (bs : List Backend) × (m : ℕ) × (add_lines P ls acc n ≡ (ok bs, m))
          × ((c : Backend)
              → any (same_backend c) bs
                ≡ (any (same_backend c) (backends_of n (entries ls)) || any (same_backend c) acc))
    unfolding add_lines
    add_lines_finds [] acc n = (acc, n, refl, λ c. refl)
    add_lines_finds (line ∷ ls) acc n =
        elim (Bool-cases (is_empty (trim line) || starts_with (trim line) "#")) [
          | inl skipped ↦
              let (bs, m, run, holds) = add_lines_finds ls acc n in
              (bs, m, ground (arith, skipped, run), λ c. rw skipped (holds c))
          | inr entry ↦ elim (outcome-cases (P.to_socket_addrs n (trim line))) [
            | inr (inr (message, stopped)) ↦ absurd (looks_up n (trim line) message stopped)
            | inr (inl (e, failed)) ↦
                let (bs, m, run, holds) = add_lines_finds ls acc (n + 1) in
                (bs, m, ground (arith, entry, failed, run), λ c. rw (entry, failed) (holds c))
            | inl ([], found) ↦
                let (bs, m, run, holds) = add_lines_finds ls acc (n + 1) in
                (bs, m, ground (arith, entry, found, run), λ c. rw (entry, found) (holds c))
            | inl (addr ∷ addrs, found) ↦
                let acc₁ = insert P (backend addr 1) acc in
                let (bs, m, run, holds) = add_lines_finds ls acc₁ (n + 1) in
                (
                  bs,
                  m,
                  ground (arith, entry, found, run),
                  λ c. rw (entry, found) (ground (arith, holds c, any-add (backend addr 1) acc c)),
                )
          ]
        ]

    -- Where the file is read, discovery succeeds with an empty map of enablement and the set of the
    -- backends of its entries, in the order of the file: the first address of each, with the weight 1. Blank lines and comments are
    -- skipped, and so are entries that have no address. A look-up is taken not to panic.
    pub discover_entries :
        (path : String) (n : ℕ) {contents : String}
        → P.read_to_string n path ≡ ok contents
        → as_set P (discover P path n).0
          ≡ ok (set_of P (backends_of (n + 1) (entries (lines contents))), [])
    unfolding discover
    discover_entries path n {contents} read =
        let (bs, m, run, holds) = add_lines_finds (lines contents) [] (n + 1) in
        let all = backends_of (n + 1) (entries (lines contents)) in
        let same : set_of P bs ≡ set_of P all = Quot.sound (λ c. ground (arith, holds c)) in
        let found : (discover P path n).0 ≡ ok (bs, []) = ground (arith, read, run) in
        ap (as_set P) found ∙ ap (λ s. ok (s, [])) same
