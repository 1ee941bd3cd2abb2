-- ===== src/Upstreams/Factory/Backends.antt =====
-- src/upstreams/factory.rs: the sets of backends that discovery returns.
use pingora_guide.Base.{
  String, ℕ, ◌+◌, ◌≡◌, refl, Bool, true, false, List, [], ◌∷◌, arith, ok, inl, inr, All, any,
  Bool-cases,
}
use pingora_guide.Config.{BackendConf}
use pingora_guide.Pingora.{Pingora}
use pingora_guide.Upstreams.Factory.Discovery.{
  DnsDiscovery, FileDiscovery, insert, insert_all, resolve, discover_dns, parse_backends,
  discover_file,
}

module _ (P : Pingora) where
  open P use {InetAddr, Backend, backend, same_backend}

  -- No backend twice.
  abbrev pub Distinct : List Backend → Type 0
  Distinct [] = Unit
  Distinct (b ∷ bs) = (any (same_backend b) bs ≡ false) × Distinct bs

  -- Is there a backend of an address and a weight?
  abbrev pub Has : ℕ → List Backend → InetAddr → Type 0
  Has weight bs addr = any (same_backend (backend addr weight)) bs ≡ true

  insert-Distinct : (b : Backend) (bs : List Backend) → Distinct bs → Distinct (insert P b bs)
  unfolding insert
  insert-Distinct b bs h = elim (Bool-cases (any (same_backend b) bs)) [
    | inl there ↦ rw there h
    | inr absent ↦ rw absent (absent, h)
  ]

  insert_all-Distinct :
      (weight : ℕ) (addrs : List InetAddr) (bs : List Backend)
      → Distinct bs
      → Distinct (insert_all P weight addrs bs)
  unfolding insert_all
  insert_all-Distinct weight [] bs h = h
  insert_all-Distinct weight (a ∷ addrs) bs h =
      insert_all-Distinct weight addrs (insert P (backend a weight) bs)
        (insert-Distinct (backend a weight) bs h)

  insert_keeps :
      (p : Backend → Bool) (b : Backend) (bs : List Backend)
      → any p bs ≡ true
      → any p (insert P b bs) ≡ true
  unfolding insert
  insert_keeps p b bs h = ground arith

  insert_all_keeps :
      (weight : ℕ) (addrs : List InetAddr) (bs : List Backend) (p : Backend → Bool)
      → any p bs ≡ true
      → any p (insert_all P weight addrs bs) ≡ true
  unfolding insert_all
  insert_all_keeps weight [] bs p h = h
  insert_all_keeps weight (a ∷ addrs) bs p h =
      insert_all_keeps weight addrs (insert P (backend a weight) bs) p
        (insert_keeps p (backend a weight) bs h)

  -- A backend is the same as itself.
  module _ (same_refl : (b : Backend) → same_backend b b ≡ true) where
    insert_has : (b : Backend) (bs : List Backend) → any (same_backend b) (insert P b bs) ≡ true
    unfolding insert
    insert_has b bs = ground (arith, same_refl b)

    insert_all-Has :
        (weight : ℕ) (addrs : List InetAddr) (bs : List Backend)
        → All (Has weight (insert_all P weight addrs bs)) addrs
    unfolding insert_all
    insert_all-Has weight [] bs = tt
    insert_all-Has weight (a ∷ addrs) bs = (
      insert_all_keeps weight addrs (insert P (backend a weight) bs)
          (same_backend (backend a weight)) (insert_has (backend a weight) bs),
      insert_all-Has weight addrs (insert P (backend a weight) bs),
    )

    -- Where the name is resolved, the discovery by DNS returns a set without duplicates that has a
    -- backend of weight 1 for every address.
    pub discover_dns-Has :
        (self : DnsDiscovery) (n : ℕ) {addrs : List InetAddr}
        → P.lookup_host n self.hostname ≡ ok addrs
        → (bs : List Backend) × (discover_dns P self n ≡ (ok (bs, []), n + 1))
          × Distinct bs
          × All (Has 1 bs) addrs
    unfolding discover_dns
    discover_dns-Has self n {addrs} found = (
      insert_all P 1 addrs [],
      ground arith,
      insert_all-Distinct 1 addrs [] tt,
      insert_all-Has 1 addrs [],
    )

  -- The addresses of the configured backends, looked up one after the other.
  abbrev pub Resolved : ℕ → List BackendConf → List (List InetAddr) → Type 0
  Resolved n [] [] = Unit
  Resolved n (conf ∷ confs) (addrs ∷ rest) =
      (P.to_socket_addrs n conf.address ≡ ok addrs) × Resolved (n + 1) confs rest
  Resolved n [] (addrs ∷ rest) = ⊥
  Resolved n (conf ∷ confs) [] = ⊥

  -- Every configured backend has one for each of its addresses, of its weight.
  abbrev pub AllHas : List Backend → List BackendConf → List (List InetAddr) → Type 0
  AllHas bs (conf ∷ confs) (addrs ∷ rest) = All (Has conf.weight bs) addrs × AllHas bs confs rest
  AllHas bs [] rest = Unit
  AllHas bs (conf ∷ confs) [] = Unit

  more_kept :
      (weight : ℕ) (bs bs' : List Backend) (addrs : List InetAddr)
      → ((p : Backend → Bool) → any p bs ≡ true → any p bs' ≡ true)
      → All (Has weight bs) addrs
      → All (Has weight bs') addrs
  more_kept weight bs bs' [] keep tt = tt
  more_kept weight bs bs' (a ∷ addrs) keep (one, more) =
      (keep (same_backend (backend a weight)) one, more_kept weight bs bs' addrs keep more)

  module _ (same_refl : (b : Backend) → same_backend b b ≡ true) where
    resolve_lem :
        (confs : List BackendConf) (acc : List Backend) (n : ℕ) (answers : List (List InetAddr))
        → Resolved n confs answers
        → Distinct acc
        → (bs : List Backend) × (m : ℕ) × (resolve P confs acc n ≡ (ok bs, m))
          × Distinct bs
          × ((p : Backend → Bool) → any p acc ≡ true → any p bs ≡ true)
          × AllHas bs confs answers
    unfolding resolve
    resolve_lem [] acc n [] found h = (acc, n, refl, h, λ p there. there, tt)
    resolve_lem [] acc n (addrs ∷ rest) found h = absurd found
    resolve_lem (conf ∷ confs) acc n [] found h = absurd found
    resolve_lem (conf ∷ confs) acc n (addrs ∷ rest) (here, later) h =
        let acc₁ = insert_all P conf.weight addrs acc in
        let (bs, m, run, distinct, kept, others) =
          resolve_lem confs acc₁ (n + 1) rest later (insert_all-Distinct conf.weight addrs acc h) in
        (
          bs,
          m,
          ground arith,
          distinct,
          λ p there. kept p (insert_all_keeps conf.weight addrs acc p there),
          (
            more_kept conf.weight acc₁ bs addrs kept
                (insert_all-Has same_refl conf.weight addrs acc),
            others,
          ),
        )

    -- Where the file is read and parsed, and all its addresses are resolved, the discovery by file
    -- returns a set without duplicates that has, for every address of every configured backend, one
    -- of the weight that is configured, and an empty map of enablement.
    pub discover_file_has :
        (self : FileDiscovery) (n : ℕ) {content : String} {confs : List BackendConf}
        (answers : List (List InetAddr))
        → P.read_to_string n self.path ≡ ok content
        → parse_backends P self.format content ≡ ok confs
        → Resolved (n + 1) confs answers
        → (bs : List Backend) × (m : ℕ) × (discover_file P self n ≡ (ok (bs, []), m))
          × Distinct bs
          × AllHas bs confs answers
    unfolding discover_file
    discover_file_has self n {content} {confs} answers read parsed found =
        let (bs, m, run, distinct, _, all) = resolve_lem confs [] (n + 1) answers found tt in
        (bs, m, ground arith, distinct, all)
