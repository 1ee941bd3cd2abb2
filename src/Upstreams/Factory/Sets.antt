-- ===== src/Upstreams/Factory/Sets.antt =====
-- src/upstreams/factory.rs: the backends that discovery returns, as a set: the order of a list and its
-- repetitions are forgotten.
use mathlib.Core.Quot
use mathlib.Core.Quot.{Quot, Quot-set}
use mathlib.Core.Bool.{Bool-set}
use pingora_guide.Base.{
  ℕ, ◌≡◌, refl, sym, ap, ◌∙◌, Bool, true, ◌||◌, List, [], ◌∷◌, arith, Outcome, ok, err, panic, inl,
  inr, any, Bool-cases,
}
use pingora_guide.Pingora.{Pingora}
use pingora_guide.Upstreams.Factory.Discovery.{
  Found, DnsDiscovery, insert, insert_all, discover_dns,
}

module _ (P : Pingora) where
  open P use {Error, InetAddr, Backend, backend, same_backend}

  -- Two lists with the same backends.
  abbrev pub SameBackends : List Backend → List Backend → Type 0
  SameBackends bs bs' = (b : Backend) → any (same_backend b) bs ≡ any (same_backend b) bs'

  abbrev pub BackendSet : Type 0
  BackendSet = Quot SameBackends

  abbrev pub set_of : List Backend → BackendSet
  set_of bs = Quot.mk bs

  unfoldable pub is_in : Backend → BackendSet → Bool
  is_in b = Quot.lift Bool-set (any (same_backend b)) (λ bs bs' h. h b)

  -- What discovery returns, with its backends as a set.
  abbrev pub as_set : {E : Type 0} → Outcome E (Found P) → Outcome E (BackendSet × List (ℕ × Bool))
  as_set (ok (bs, enabled)) = ok (set_of bs, enabled)
  as_set (err e) = err e
  as_set (panic message) = panic message

  -- Backends that are the same are the same as the same ones.
  module _
      (same_both : (a b : Backend)
        → same_backend a b ≡ true
        → (c : Backend) → same_backend c a ≡ same_backend c b) where
    any-same :
        (a : Backend) (bs : List Backend)
        → any (same_backend a) bs ≡ true
        → (c : Backend) → same_backend c a ≡ true
        → any (same_backend c) bs ≡ true
    any-same a [] there c same = there
    any-same a (b ∷ bs) there c same = elim (Bool-cases (same_backend a b)) [
      | inl here ↦ ground (arith, same_both a b here c)
      | inr away ↦ ground (arith, any-same a bs (ground arith) c same)
    ]

    pub any-insert :
        (a : Backend) (bs : List Backend) (c : Backend)
        → any (same_backend c) (insert P a bs) ≡ (same_backend c a || any (same_backend c) bs)
    unfolding insert
    any-insert a bs c = elim (Bool-cases (any (same_backend a) bs)) [
      | inl there ↦ elim (Bool-cases (same_backend c a)) [
        | inl same ↦ ground (arith, any-same a bs there c same)
        | inr other ↦ ground arith
      ]
      | inr absent ↦ ground arith
    ]

    any-insert_all :
        (weight : ℕ) (addrs : List InetAddr) (bs : List Backend) (c : Backend)
        → any (same_backend c) (insert_all P weight addrs bs)
          ≡ (any (λ a. same_backend c (backend a weight)) addrs || any (same_backend c) bs)
    unfolding insert_all
    any-insert_all weight [] bs c = refl
    any-insert_all weight (a ∷ addrs) bs c = ground (
      arith,
      any-insert_all weight addrs (insert P (backend a weight) bs) c,
      any-insert (backend a weight) bs c,
    )

    discover_dns_found :
        (self : DnsDiscovery) (n : ℕ) {addrs : List InetAddr}
        → P.lookup_host n self.hostname ≡ ok addrs
        → (discover_dns P self n).0 ≡ ok (insert_all P 1 addrs [], [])
    unfolding discover_dns
    discover_dns_found self n found = ground arith

    -- Where two answers of the name server have the same addresses, in whatever order and however often,
    -- discovery by DNS returns the same set and an empty map of enablement, and a backend is in the set
    -- exactly if it is the same as that of an address with the weight 1.
    pub discover_dns_sets :
        (self : DnsDiscovery) (n n' : ℕ) {addrs addrs' : List InetAddr}
        → P.lookup_host n self.hostname ≡ ok addrs
        → P.lookup_host n' self.hostname ≡ ok addrs'
        → ((p : InetAddr → Bool) → any p addrs ≡ any p addrs')
        → (set : BackendSet) × (as_set (discover_dns P self n).0 ≡ ok (set, []))
          × (as_set (discover_dns P self n').0 ≡ ok (set, []))
          × ((b : Backend) → is_in b set ≡ any (λ a. same_backend b (backend a 1)) addrs)
    unfolding is_in
    discover_dns_sets self n n' {addrs} {addrs'} found found' same =
        let sound : set_of (insert_all P 1 addrs []) ≡ set_of (insert_all P 1 addrs' []) =
          Quot.sound (λ c. ground (
            arith,
            any-insert_all 1 addrs [] c,
            any-insert_all 1 addrs' [] c,
            same (λ a. same_backend c (backend a 1)),
          )) in
        (
          set_of (insert_all P 1 addrs []),
          ap as_set (discover_dns_found self n found),
          ap as_set (discover_dns_found self n' found') ∙ ap (λ s. ok (s, [])) (sym sound),
          λ b. ground (arith, any-insert_all 1 addrs [] b),
        )
