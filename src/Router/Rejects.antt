-- ===== src/Router/Rejects.antt =====
-- src/upstreams/router.rs: the configurations that `Router::new` refuses, and its errors.
use mathlib.Core.Path.{subst}
use pingora_guide.Base.{
  ℕ, ◌+◌, ◌≡◌, refl, ap, ◌∙◌, inl, inr, ◌≢◌, ◌↔◌, String, true, false, some, List, [], ◌∷◌, ◌++◌,
  arith, ok, err, Bool-cases, Option-cases, outcome-cases,
}
use pingora_guide.Base.Text.{starts_with, ◌<>◌}
use pingora_guide.Config.{RouteConf, PathType, prefix, exact, regex, GatewayConf, AccessControlConf}
use pingora_guide.Error.{PingoraGuideError, gateway, route_error, acl_error}
use pingora_guide.Pingora.{Pingora}
use pingora_guide.Router.Defs.{
  Router, index_regex, index_matchit, index_path, compile_acl, add_route, add_routes, empty_router,
  new,
}
use pingora_guide.Router.Networks.{FirstBad, compile_acl_rejects, FirstBad-acl}

module _ (P : Pingora) where
  open P use {Error, regex_new, matchit_insert, net_from_str}

  -- Why a route has no place in the tables, and the error of it.
  pub data Unplaced (idx : ℕ) (route : RouteConf) (r : Router P)
      : PathType → PingoraGuideError Error → Type 0 where
    bad_regex :
        {m : String}
        → regex_new route.path ≡ err m
        → Unplaced idx route r regex
            (gateway (route_error ("Invalid Regex in configuration '" <> route.path <> "': " <> m)))
    no_slash :
        {t : PathType}
        → t ≢ regex
        → starts_with route.path "/" ≡ false
        → Unplaced idx route r t (
            gateway (
              route_error ("Warning: Prefix route '" <> route.path <> "' does not start with '/'")))
    conflict :
        {t : PathType} {m : String}
        → t ≢ regex
        → starts_with route.path "/" ≡ true
        → matchit_insert route.path idx r.matchit_router ≡ err m
        → Unplaced idx route r t
            (gateway (route_error ("Failed to insert route '" <> route.path <> "': " <> m)))

  -- Why a route is refused: it has no place, or a network of its access control is malformed, those
  -- that are denied before those that are allowed.
  pub data Refused (idx : ℕ) (route : RouteConf) (r : Router P)
      : PingoraGuideError Error → Type 0 where
    unplaced :
        {e : PingoraGuideError Error}
        → Unplaced idx route r route.path_type e
        → Refused idx route r e
    bad_network :
        {acl : AccessControlConf} {m : String}
        → (index_path P route.path_type idx route r).0 ≡ ok tt
        → route.access_control ≡ some acl
        → FirstBad P (acl.deny ++ acl.allow) m
        → Refused idx route r (gateway (acl_error m))

  -- The first route that is refused, all before it being added.
  pub data FirstRefused : ℕ → List RouteConf → Router P → PingoraGuideError Error → Type 0 where
    refused_here :
        {idx : ℕ} {route : RouteConf} {routes : List RouteConf} {r : Router P}
        {e : PingoraGuideError Error}
        → Refused idx route r e
        → FirstRefused idx (route ∷ routes) r e
    refused_later :
        {idx : ℕ} {route : RouteConf} {routes : List RouteConf} {r : Router P}
        {e : PingoraGuideError Error}
        → (add_route P idx route r).0 ≡ ok tt
        → FirstRefused (idx + 1) routes (add_route P idx route r).1 e
        → FirstRefused idx (route ∷ routes) r e

  index_matchit_rejects :
      (t : PathType) (idx : ℕ) (route : RouteConf) (r : Router P) {e : PingoraGuideError Error}
      → t ≢ regex
      → (index_matchit P idx route r).0 ≡ err e
      → Unplaced idx route r t e
  unfolding index_matchit
  index_matchit_rejects t idx route r {e} other failed =
      elim (Bool-cases (starts_with route.path "/")) [
        | inr absent ↦
            let same : gateway (
                  route_error
                    ("Warning: Prefix route '" <> route.path <> "' does not start with '/'"))
                ≡ e =
              ground arith in
            subst (Unplaced idx route r t) same (no_slash other absent)
        | inl slash ↦ elim (outcome-cases (matchit_insert route.path idx r.matchit_router)) [
          | inl (m, inserted) ↦ absurd (ground arith)
          | inr (inl (m, bad)) ↦
              let same : gateway
                    (route_error ("Failed to insert route '" <> route.path <> "': " <> m))
                  ≡ e =
                ground arith in
              subst (Unplaced idx route r t) same (conflict other slash bad)
          | inr (inr (m, stopped)) ↦ absurd (ground arith)
        ]
      ]

  index_path_rejects :
      (t : PathType) (idx : ℕ) (route : RouteConf) (r : Router P) {e : PingoraGuideError Error}
      → (index_path P t idx route r).0 ≡ err e
      → Unplaced idx route r t e
  unfolding index_path index_regex
  index_path_rejects regex idx route r {e} failed = elim (outcome-cases (regex_new route.path)) [
    | inl (re, compiled) ↦ absurd (ground arith)
    | inr (inl (m, bad)) ↦
        let same : gateway
              (route_error ("Invalid Regex in configuration '" <> route.path <> "': " <> m))
            ≡ e =
          ground arith in
        subst (Unplaced idx route r regex) same (bad_regex bad)
    | inr (inr (m, stopped)) ↦ absurd (ground arith)
  ]
  index_path_rejects prefix idx route r failed =
      index_matchit_rejects prefix idx route r (λ h. cc) failed
  index_path_rejects exact idx route r failed =
      index_matchit_rejects exact idx route r (λ h. cc) failed

  Unplaced-rejected :
      (t : PathType) (idx : ℕ) (route : RouteConf) (r : Router P) {e : PingoraGuideError Error}
      → Unplaced idx route r t e
      → (index_path P t idx route r).0 ≡ err e
  unfolding index_path index_regex index_matchit
  Unplaced-rejected regex idx route r (bad_regex bad) = ground arith
  Unplaced-rejected regex idx route r (no_slash other absent) = absurd (other refl)
  Unplaced-rejected regex idx route r (conflict other slash bad) = absurd (other refl)
  Unplaced-rejected prefix idx route r (no_slash other absent) = ground arith
  Unplaced-rejected prefix idx route r (conflict other slash bad) = ground arith
  Unplaced-rejected exact idx route r (no_slash other absent) = ground arith
  Unplaced-rejected exact idx route r (conflict other slash bad) = ground arith

  add_route_rejects :
      (idx : ℕ) (route : RouteConf) (r : Router P) {e : PingoraGuideError Error}
      → (add_route P idx route r).0 ≡ err e
      → Refused idx route r e
  unfolding add_route compile_acl
  add_route_rejects idx route r {e} failed =
      let r₁ = (index_path P route.path_type idx route r).1 in
      elim (outcome-cases (index_path P route.path_type idx route r).0) [
        | inr (inl (e', bad)) ↦
            let same : e' ≡ e = ground arith in
            unplaced (index_path_rejects route.path_type idx route r (bad ∙ ap err same))
        | inr (inr (m, stopped)) ↦ absurd (ground arith)
        | inl (_, indexed) ↦ elim (Option-cases route.access_control) [
          | inl open_to_all ↦ absurd (ground (arith, open_to_all))
          | inr (acl, controlled) ↦
              let bad : (compile_acl P (some acl) r₁).0 ≡ err e = ground (arith, controlled) in
              let (m, first, same) = compile_acl_rejects P acl r₁ bad in
              subst (Refused idx route r) same (bad_network {acl = acl} indexed controlled first)
        ]
      ]

  Refused-rejected :
      (idx : ℕ) (route : RouteConf) (r : Router P) {e : PingoraGuideError Error}
      → Refused idx route r e
      → (add_route P idx route r).0 ≡ err e
  unfolding add_route
  Refused-rejected idx route r (unplaced why) =
      ground (arith, Unplaced-rejected route.path_type idx route r why)
  Refused-rejected idx route r (bad_network {acl = acl} indexed controlled bad) = ground (
    arith,
    indexed,
    controlled,
    FirstBad-acl P acl (index_path P route.path_type idx route r).1 bad,
  )

  add_routes_rejects :
      (idx : ℕ) (routes : List RouteConf) (r : Router P) {e : PingoraGuideError Error}
      → (add_routes P idx routes r).0 ≡ err e
      → FirstRefused idx routes r e
  unfolding add_routes
  add_routes_rejects idx [] r failed = absurd (ground arith)
  add_routes_rejects idx (route ∷ routes) r {e} failed =
      elim (outcome-cases (add_route P idx route r).0) [
        | inr (inl (e', bad)) ↦
            let same : e' ≡ e = ground arith in
            refused_here (add_route_rejects idx route r (bad ∙ ap err same))
        | inr (inr (m, stopped)) ↦ absurd (ground arith)
        | inl (_, added) ↦
            refused_later added
              (add_routes_rejects (idx + 1) routes (add_route P idx route r).1 (ground arith))
      ]

  FirstRefused-rejected :
      (idx : ℕ) (routes : List RouteConf) (r : Router P) {e : PingoraGuideError Error}
      → FirstRefused idx routes r e
      → (add_routes P idx routes r).0 ≡ err e
  unfolding add_routes
  FirstRefused-rejected idx [] r refused = elim refused [ ]
  FirstRefused-rejected idx (route ∷ routes) r (refused_here why) =
      ground (arith, Refused-rejected idx route r why)
  FirstRefused-rejected idx (route ∷ routes) r (refused_later added refused) =
      ground (arith, FirstRefused-rejected (idx + 1) routes (add_route P idx route r).1 refused)

  -- `Router::new` fails with an error exactly if, the routes being added in order, the first one that
  -- is refused is refused for it: an expression that is malformed, a path that does not start with a
  -- slash or that `matchit` refuses, or then a malformed network, denied ones before allowed ones.
  pub new_rejects :
      (conf : GatewayConf) (e : PingoraGuideError Error)
      → new P conf ≡ err e ↔ FirstRefused 0 conf.routes (empty_router P) e
  unfolding new
  new_rejects conf e = (
    λ failed. add_routes_rejects 0 conf.routes (empty_router P) (ground arith),
    λ refused. ground (arith, FirstRefused-rejected 0 conf.routes (empty_router P) refused),
  )
