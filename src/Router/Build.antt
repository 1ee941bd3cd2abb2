-- ===== src/Router/Build.antt =====
-- src/upstreams/router.rs: what `Router::new` builds, as a function of the configured routes.
use mathlib.Core.List.{append-nil, append_assoc}
use mathlib.Core.Path.{ap₂}
use native.Mathlib.Nat.{zero-add}
use pingora_guide.Base.{
  ℕ, zero, suc, ◌+◌, ◌<◌, ◌≡◌, refl, ◌∙◌, sym, inl, inr, String, true, false, Option, none, some,
  List, [], ◌∷◌, ◌++◌, map, arith, ok-cases, ok, err, panic, get_elem?, ◌==◌, nat_eq, if◌then◌else◌,
}
use pingora_guide.Base.Dict
use pingora_guide.Base.Dict.{Dict, lookup-nil, lookup-insert}
use pingora_guide.Base.Text.{starts_with}
use pingora_guide.Config.{RouteConf, PathType, prefix, exact, regex, GatewayConf, AccessControlConf}
use pingora_guide.Pingora.{Pingora}
use pingora_guide.Router.Defs.{
  Arc, Router, RouteEntry, index_regex, index_matchit, index_path, parse_nets, compile_acl,
  add_route, add_routes, empty_router, new, CompiledAccessControl,
}

module _ (P : Pingora) where
  open P use {Regex, Matchit, matchit_new, matchit_insert, regex_new}

  -- The routes that a `matchit` router was given, the last one first.
  pub data Built : Matchit → List (String × ℕ) → Type 0 where
    empty : Built matchit_new []
    inserted :
        {m m' : Matchit} {rs : List (String × ℕ)} {path : String} {id : ℕ}
        → Built m rs
        → matchit_insert path id m ≡ ok m'
        → Built m' ((path, id) ∷ rs)

  -- The entry of one route in the list of expressions, and in the `matchit` router.
  abbrev pub regex_of : PathType → ℕ → RouteConf → List (Regex × ℕ)
  regex_of regex idx route = elim (regex_new route.path) [
    | ok re ↦ (re, idx) ∷ []
    | err e ↦ []
    | panic message ↦ []
  ]
  regex_of prefix idx route = []
  regex_of exact idx route = []

  abbrev pub regex_table : ℕ → List RouteConf → List (Regex × ℕ)
  regex_table idx [] = []
  regex_table idx (route ∷ routes) =
      regex_of route.path_type idx route ++ regex_table (idx + 1) routes

  abbrev pub path_of : PathType → ℕ → RouteConf → List (String × ℕ) → List (String × ℕ)
  path_of regex idx route rs = rs
  path_of prefix idx route rs = (route.path, idx) ∷ rs
  path_of exact idx route rs = (route.path, idx) ∷ rs

  abbrev pub path_table : ℕ → List RouteConf → List (String × ℕ) → List (String × ℕ)
  path_table idx [] rs = rs
  path_table idx (route ∷ routes) rs =
      path_table (idx + 1) routes (path_of route.path_type idx route rs)

  -- The registry after the entries are stored under consecutive ids.
  abbrev pub placed : ℕ → List (RouteEntry P) → ℕ → Option (RouteEntry P) → Option (RouteEntry P)
  placed idx [] j old = old
  placed idx (e ∷ es) j old = placed (idx + 1) es j (if idx == j then some e else old)

  pub parse_nets_state : (blocks : List String) (r : Router P) → (parse_nets P blocks r).1 ≡ r
  unfolding parse_nets
  parse_nets_state [] r = refl
  parse_nets_state (b ∷ blocks) r = ground (arith, parse_nets_state blocks r)

  pub compile_acl_state :
      (acl : Option AccessControlConf) (r : Router P) → (compile_acl P acl r).1 ≡ r
  unfolding compile_acl
  compile_acl_state none r = refl
  compile_acl_state (some acl) r =
      ground (arith, parse_nets_state acl.deny r, parse_nets_state acl.allow r)

  index_regex_lem :
      (idx : ℕ) (route : RouteConf) (r : Router P)
      → (index_regex P idx route r).0 ≡ ok tt
      → let r' = (index_regex P idx route r).1 in
        (r'.regex_routes ≡ r.regex_routes ++ regex_of regex idx route)
        × (r'.route_registry ≡ r.route_registry)
        × (r'.matchit_router ≡ r.matchit_router)
  unfolding index_regex
  index_regex_lem idx route r done = ground arith

  index_matchit_lem :
      (idx : ℕ) (route : RouteConf) (r : Router P)
      → (index_matchit P idx route r).0 ≡ ok tt
      → let r' = (index_matchit P idx route r).1 in
        (r'.regex_routes ≡ r.regex_routes)
        × (r'.route_registry ≡ r.route_registry)
        × (matchit_insert route.path idx r.matchit_router ≡ ok r'.matchit_router)
        × (starts_with route.path "/" ≡ true)
  unfolding index_matchit
  index_matchit_lem idx route r done = ground arith

  -- One route that is indexed: its expression or its path goes to its table, and no entry changes.
  index_path_lem :
      (t : PathType) (idx : ℕ) (route : RouteConf) (r : Router P) (rs : List (String × ℕ))
      → (index_path P t idx route r).0 ≡ ok tt
      → Built r.matchit_router rs
      → let r' = (index_path P t idx route r).1 in
        (r'.regex_routes ≡ r.regex_routes ++ regex_of t idx route)
        × (r'.route_registry ≡ r.route_registry)
        × Built r'.matchit_router (path_of t idx route rs)
  unfolding index_path
  index_path_lem regex idx route r rs done built =
      let (table, registry, same) = index_regex_lem idx route r done in
      (table, registry, rw same built)
  index_path_lem prefix idx route r rs done built =
      let (table, registry, stored, _) = index_matchit_lem idx route r done in
      (rw append-nil table, registry, inserted built stored)
  index_path_lem exact idx route r rs done built =
      let (table, registry, stored, _) = index_matchit_lem idx route r done in
      (rw append-nil table, registry, inserted built stored)

  abbrev entry_of : RouteConf → Option (Arc (CompiledAccessControl P)) → RouteEntry P
  entry_of route acl = record { conf = record { inner = route }; access_control = acl }

  add_route_step :
      (idx : ℕ) (route : RouteConf) (r : Router P)
      → (add_route P idx route r).0 ≡ ok tt
      → let r₁ = (index_path P route.path_type idx route r).1 in
        (acl : Option (Arc (CompiledAccessControl P))) × ((index_path P route.path_type idx route
            r).0
          ≡ ok tt)
        × ((add_route P idx route r).1
            ≡ record r₁ { route_registry = Dict.insert idx (entry_of route acl) r₁.route_registry })
  unfolding add_route
  add_route_step idx route r done = elim (ok-cases (index_path P route.path_type idx route r).0) [
    | inr no_index ↦ absurd (ground arith)
    | inl (_, indexed) ↦
        let r₁ = (index_path P route.path_type idx route r).1 in
        elim (ok-cases (compile_acl P route.access_control r₁).0) [
          | inr no_acl ↦ absurd (ground arith)
          | inl (acl, compiled) ↦
              (acl, ground arith, ground (arith, compile_acl_state route.access_control r₁))
        ]
  ]

  add_route_lem :
      (idx : ℕ) (route : RouteConf) (r : Router P) (rs : List (String × ℕ))
      → (add_route P idx route r).0 ≡ ok tt
      → Built r.matchit_router rs
      → let r' = (add_route P idx route r).1 in
        (e : RouteEntry P) × (e.conf.inner ≡ route)
        × (r'.regex_routes ≡ r.regex_routes ++ regex_of route.path_type idx route)
        × (r'.route_registry ≡ Dict.insert idx e r.route_registry)
        × Built r'.matchit_router (path_of route.path_type idx route rs)
  add_route_lem idx route r rs done built =
      let (acl, indexed, stored) = add_route_step idx route r done in
      let (table, registry, paths) = index_path_lem route.path_type idx route r rs indexed built in
      (entry_of route acl, refl, rw stored table, rw (stored, registry), rw stored paths)

  add_routes_step :
      (idx : ℕ) (route : RouteConf) (routes : List RouteConf) (r : Router P)
      → (add_route P idx route r).0 ≡ ok tt
      → (add_routes P idx (route ∷ routes) r).1
        ≡ (add_routes P (idx + 1) routes (add_route P idx route r).1).1
  unfolding add_routes
  add_routes_step idx route routes r added = ground arith

  -- All routes: the entries are stored in order under consecutive ids, and the tables are those of
  -- the configuration.
  add_routes_lem :
      (idx : ℕ) (routes : List RouteConf) (r : Router P) (rs : List (String × ℕ))
      → (add_routes P idx routes r).0 ≡ ok tt
      → Built r.matchit_router rs
      → let r' = (add_routes P idx routes r).1 in
        (es : List (RouteEntry P)) × (map (λ e. e.conf.inner) es ≡ routes)
        × (r'.regex_routes ≡ r.regex_routes ++ regex_table idx routes)
        × ((j : ℕ)
            → Dict.lookup j r'.route_registry ≡ placed idx es j (Dict.lookup j r.route_registry))
        × Built r'.matchit_router (path_table idx routes rs)
  unfolding add_routes
  add_routes_lem idx [] r rs done built =
      ([], refl, sym (append-nil r.regex_routes), λ j. refl, built)
  add_routes_lem idx (route ∷ routes) r rs done built =
      elim (ok-cases (add_route P idx route r).0) [
        | inr stopped ↦ absurd (ground arith)
        | inl (_, added) ↦
            let (e, same, table, registry, paths) = add_route_lem idx route r rs added built in
            let r₁ = (add_route P idx route r).1 in
            let (es, confs, tables, found, all_paths) =
              add_routes_lem (idx + 1) routes r₁ (path_of route.path_type idx route rs)
                (ground arith) paths in
            let step : (add_routes P idx (route ∷ routes) r).1
                ≡ (add_routes P (idx + 1) routes r₁).1 =
              add_routes_step idx route routes r added in
            (
              e ∷ es,
              ap₂ ◌∷◌ same confs,
              rw (step, tables, table)
                  (append_assoc r.regex_routes (regex_of route.path_type idx route)
                    (regex_table (idx + 1) routes)),
              λ j. rw (step, found j, registry, lookup-insert),
              rw step all_paths,
            )
      ]

  placed_below :
      (idx : ℕ) (es : List (RouteEntry P)) (j : ℕ) (old : Option (RouteEntry P))
      → j < idx
      → placed idx es j old ≡ old
  placed_below idx [] j old h = refl
  placed_below idx (e ∷ es) j old h =
      placed_below (idx + 1) es j (if idx == j then some e else old) (omega arith) ∙ ground arith

  placed_at :
      (idx : ℕ) (es : List (RouteEntry P)) (k : ℕ) → placed idx es (idx + k) none ≡ get_elem? es k
  placed_at idx [] k = refl
  placed_at idx (e ∷ es) zero =
      placed_below (idx + 1) es (idx + 0) (if idx == idx + 0 then some e else none) (omega arith)
      ∙ ground arith
  placed_at idx (e ∷ es) (suc k) =
      let next : idx + suc k ≡ (idx + 1) + k = omega arith in
      let other : (idx == idx + suc k) ≡ false = ground arith in
      rw (other, next) (placed_at (idx + 1) es k)

  placed_start : (es : List (RouteEntry P)) (j : ℕ) → placed 0 es j none ≡ get_elem? es j
  placed_start es j = rw zero-add at (placed_at 0 es j)

  -- What a router that `Router::new` returned consists of.
  pub record Compiled (routes : List RouteConf) (r : Router P) : Type 0 where
    pub entries : List (RouteEntry P)
    pub confs : map (λ e. e.conf.inner) entries ≡ routes
    pub table : r.regex_routes ≡ regex_table 0 routes
    pub registry : (j : ℕ) → Dict.lookup j r.route_registry ≡ get_elem? entries j
    pub paths : Built r.matchit_router (path_table 0 routes [])

  -- Where `Router::new` returns a router, its registry holds the configured routes in order under their
  -- indices, its list of expressions is that of the routes with an expression, and its `matchit`
  -- router was given the other routes.
  pub new-Compiled :
      (conf : GatewayConf) (r : Router P) → new P conf ≡ ok r → Compiled conf.routes r
  unfolding new
  new-Compiled conf r done = elim (ok-cases (add_routes P 0 conf.routes (empty_router P)).0) [
    | inr failed ↦ absurd (ground arith)
    | inl (_, added) ↦
        let (es, confs, table, found, paths) =
          add_routes_lem 0 conf.routes (empty_router P) [] added empty in
        let same : (add_routes P 0 conf.routes (empty_router P)).1 ≡ r = ground arith in
        record {
          entries = es;
          confs = confs;
          table = rw same at table;
          registry = λ j. (rw same at (found j)) ∙ rw lookup-nil (placed_start es j);
          paths = rw same at paths;
        }
  ]
