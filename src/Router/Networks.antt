-- ===== src/Router/Networks.antt =====
-- src/upstreams/router.rs: the malformed networks of an access control.
use pingora_guide.Base.{
  ◌≡◌, refl, inl, inr, ◌⊎◌, String, some, List, [], ◌∷◌, ◌++◌, arith, ok, err, outcome-cases,
}
use pingora_guide.Config.{AccessControlConf}
use pingora_guide.Error.{PingoraGuideError, gateway, acl_error}
use pingora_guide.Pingora.{Pingora}
use pingora_guide.Router.Defs.{Router, parse_nets, compile_acl}
use pingora_guide.Router.Build.{parse_nets_state}

module _ (P : Pingora) where
  open P use {Error, net_from_str}

  -- The first block of a list that is no network.
  pub data FirstBad : List String → String → Type 0 where
    bad_here :
        {block m : String} {blocks : List String}
        → net_from_str block ≡ err m
        → FirstBad (block ∷ blocks) m
    bad_later :
        {block m : String} {blocks : List String} {net : P.IpNet}
        → net_from_str block ≡ ok net
        → FirstBad blocks m
        → FirstBad (block ∷ blocks) m

  parse_nets_rejects :
      (blocks : List String) (r : Router P) {e : PingoraGuideError Error}
      → (parse_nets P blocks r).0 ≡ err e
      → (m : String) × FirstBad blocks m × (gateway (acl_error m) ≡ e)
  unfolding parse_nets
  parse_nets_rejects [] r failed = absurd (ground arith)
  parse_nets_rejects (block ∷ blocks) r failed = elim (outcome-cases (net_from_str block)) [
    | inl (net, parsed) ↦
        let (m, bad, same) = parse_nets_rejects blocks r (ground arith) in
        (m, bad_later parsed bad, same)
    | inr (inl (m, bad)) ↦ (m, bad_here bad, ground arith)
    | inr (inr (m, stopped)) ↦ absurd (ground arith)
  ]

  FirstBad-rejected :
      (blocks : List String) (r : Router P) {m : String}
      → FirstBad blocks m
      → (parse_nets P blocks r).0 ≡ err (gateway (acl_error m))
  unfolding parse_nets
  FirstBad-rejected [] r bad = elim bad [ ]
  FirstBad-rejected (block ∷ blocks) r (bad_here bad) = ground arith
  FirstBad-rejected (block ∷ blocks) r (bad_later parsed bad) =
      ground (arith, FirstBad-rejected blocks r bad)

  -- The first bad block of two lists in a row: it stands in the first, or in the second and the first
  -- is parsed.
  FirstBad-split :
      (deny allow : List String) (r : Router P) {m : String}
      → FirstBad (deny ++ allow) m
      → FirstBad deny m
        ⊎ (((nets : List P.IpNet) × ((parse_nets P deny r).0 ≡ ok nets)) × FirstBad allow m)
  unfolding parse_nets
  FirstBad-split [] allow r bad = inr (([], refl), bad)
  FirstBad-split (block ∷ deny) allow r (bad_here bad) = inl (bad_here bad)
  FirstBad-split (block ∷ deny) allow r (bad_later {net = net} parsed bad) =
      elim (FirstBad-split deny allow r bad) [
        | inl denied ↦ inl (bad_later parsed denied)
        | inr ((nets, all), allowed) ↦ inr ((net ∷ nets, ground (arith, parsed, all)), allowed)
      ]

  FirstBad-denied :
      (deny allow : List String) {m : String} → FirstBad deny m → FirstBad (deny ++ allow) m
  FirstBad-denied [] allow bad = elim bad [ ]
  FirstBad-denied (block ∷ deny) allow (bad_here bad) = bad_here bad
  FirstBad-denied (block ∷ deny) allow (bad_later parsed bad) =
      bad_later parsed (FirstBad-denied deny allow bad)

  FirstBad-allowed :
      (deny allow : List String) (r : Router P) {nets : List P.IpNet} {m : String}
      → (parse_nets P deny r).0 ≡ ok nets
      → FirstBad allow m
      → FirstBad (deny ++ allow) m
  unfolding parse_nets
  FirstBad-allowed [] allow r all bad = bad
  FirstBad-allowed (block ∷ deny) allow r all bad = elim (outcome-cases (net_from_str block)) [
    | inr (inl (m, failed)) ↦ absurd (ground arith)
    | inr (inr (m, stopped)) ↦ absurd (ground arith)
    | inl (net, parsed) ↦ elim (outcome-cases (parse_nets P deny r).0) [
      | inr (inl (m, failed)) ↦ absurd (ground arith)
      | inr (inr (m, stopped)) ↦ absurd (ground arith)
      | inl (nets, rest) ↦ bad_later parsed (FirstBad-allowed deny allow r rest bad)
    ]
  ]

  pub compile_acl_rejects :
      (acl : AccessControlConf) (r : Router P) {e : PingoraGuideError Error}
      → (compile_acl P (some acl) r).0 ≡ err e
      → (m : String) × FirstBad (acl.deny ++ acl.allow) m × (gateway (acl_error m) ≡ e)
  unfolding compile_acl
  compile_acl_rejects acl r failed = elim (outcome-cases (parse_nets P acl.deny r).0) [
    | inr (inl (e, bad)) ↦
        let (m, first, same) = parse_nets_rejects acl.deny r bad in
        (m, FirstBad-denied acl.deny acl.allow first, ground arith)
    | inr (inr (m, stopped)) ↦ absurd (ground arith)
    | inl (nets, denied) ↦
        let failed_next : (parse_nets P acl.allow r).0 ≡ err _ =
          ground (arith, parse_nets_state P acl.deny r) in
        let (m, first, same) = parse_nets_rejects acl.allow r failed_next in
        (m, FirstBad-allowed acl.deny acl.allow r denied first, same)
  ]

  pub FirstBad-acl :
      (acl : AccessControlConf) (r : Router P) {m : String}
      → FirstBad (acl.deny ++ acl.allow) m
      → (compile_acl P (some acl) r).0 ≡ err (gateway (acl_error m))
  unfolding compile_acl
  FirstBad-acl acl r bad = elim (FirstBad-split acl.deny acl.allow r bad) [
    | inl denied ↦ ground (arith, FirstBad-rejected acl.deny r denied)
    | inr ((nets, all), allowed) ↦
        ground (arith, parse_nets_state P acl.deny r, FirstBad-rejected acl.allow r allowed)
  ]
