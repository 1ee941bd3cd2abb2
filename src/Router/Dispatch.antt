-- ===== src/Router/Dispatch.antt =====
-- src/upstreams/router.rs: `match_request` against a search over the configured routes.
use pingora_guide.Base.{
  ℕ, zero, suc, ◌+◌, ◌≡◌, refl, ◌∙◌, ap, ◌⊎◌, inl, inr, String, Bool, true, false, not, ◌&&◌,
  Option, none, some, List, [], ◌∷◌, map, arith, Outcome, ok, err, panic, get_elem?, ◌==◌, nat_eq,
  string_eq, if◌then◌else◌, Option-cases, Bool-cases,
}
use mathlib.Core.Option
use text.Mathlib.TextEquality.{eq_iff}
use native.Mathlib.Nat.{zero-add, add-zero}
use pingora_guide.Base.Dict
use pingora_guide.Base.Dict.{Dict}
use pingora_guide.Config.{RouteConf, PathType, prefix, exact, regex, GatewayConf}
use pingora_guide.Pingora.{Pingora}
use pingora_guide.Router.Defs.{
  Router, RouteEntry, new, validate_host, match_regex, is_exact, match_request,
}
use pingora_guide.Router.Build.{Built, regex_table, path_of, path_table, Compiled, new-Compiled}

abbrev pub In : {A : Type 0} → A → List A → Type 0
In x [] = ⊥
In x (y ∷ ys) = (x ≡ y) ⊎ In x ys

-- What is relied on of `matchit`: `at` returns the value of an inserted route, and that route's
-- pattern matches the path.
pub record MatchitLaws (P : Pingora) : Type 0 where
  pub matches : String → String → Bool
  pub at_sound :
      {m : P.Matchit} {rs : List (String × ℕ)} (path : String) {id : ℕ}
      → Built P m rs
      → P.matchit_at m path ≡ some id
      → (pattern_text : String) × In (pattern_text, id) rs × (matches pattern_text path ≡ true)

and_true : {a b : Bool} → (a && b) ≡ true → (a ≡ true) × (b ≡ true)
and_true h = ground arith

exact_or :
    (b : Bool) (path other : String)
    → (b && not (path == other)) ≡ false
    → (b ≡ false) ⊎ (path ≡ other)
exact_or false path other h = inl refl
exact_or true path other h = inr ((eq_iff path other).0 (ground arith))

module _ (P : Pingora) where
  open P use {Error, regex_new, is_match, matchit_at}

  abbrev pub conf_of : RouteEntry P → RouteConf
  conf_of e = e.conf.inner

  abbrev pub confs : Outcome Error (Option (RouteEntry P)) → Outcome Error (Option RouteConf)
  confs (ok o) = ok (Option.map conf_of o)
  confs (err e) = err e
  confs (panic message) = panic message

  -- Does a route match a path by its expression?
  abbrev pub by_regex : PathType → RouteConf → String → Bool
  by_regex regex route path = elim (regex_new route.path) [
    | ok re ↦ is_match re path
    | err e ↦ false
    | panic message ↦ false
  ]
  by_regex prefix route path = false
  by_regex exact route path = false

  -- The first configured route whose expression matches and whose hosts admit the request.
  abbrev pub first_regex : String → Option String → List RouteConf → Option RouteConf
  first_regex path host [] = none
  first_regex path host (route ∷ routes) =
      if by_regex route.path_type route path && validate_host route host
      then some route
      else first_regex path host routes

  -- The route for a request, given the id that `matchit` finds for its path.
  abbrev pub dispatch : List RouteConf → Option ℕ → String → Option String → Option RouteConf
  dispatch routes none path host = first_regex path host routes
  dispatch routes (some id) path host = elim (get_elem? routes id) [
    | none ↦ none
    | some route ↦
        if is_exact route.path_type && not (path == route.path)
        then none
        else if validate_host route host
        then some route
        else first_regex path host routes
  ]

  shift_lem : (idx k : ℕ) → (idx + 1) + k ≡ idx + suc k
  shift_lem idx k = omega arith

  path_of_sound :
      (t : PathType) (idx : ℕ) (route : RouteConf) (rs : List (String × ℕ)) (text : String) (id : ℕ)
      → In (text, id) (path_of P t idx route rs)
      → In (text, id) rs ⊎ (id ≡ idx)
  path_of_sound regex idx route rs text id found = inl found
  path_of_sound prefix idx route rs text id (inl same) = inr (ap (λ x. x.1) same)
  path_of_sound prefix idx route rs text id (inr old) = inl old
  path_of_sound exact idx route rs text id (inl same) = inr (ap (λ x. x.1) same)
  path_of_sound exact idx route rs text id (inr old) = inl old

  match_regex_lem :
      (registry : Dict ℕ (RouteEntry P)) (path : String) (host : Option String) (idx : ℕ)
      (es : List (RouteEntry P))
      → ((k : ℕ) → Dict.lookup (idx + k) registry ≡ get_elem? es k)
      → confs (match_regex P registry path host (regex_table P idx (map conf_of es)))
        ≡ ok (first_regex path host (map conf_of es))
  unfolding match_regex
  match_regex_lem registry path host idx [] found = refl
  match_regex_lem registry path host idx (e ∷ es) found =
      let shift : (k : ℕ) → Dict.lookup ((idx + 1) + k) registry ≡ get_elem? es k =
        λ k. rw (shift_lem idx k) (found (suc k)) in
      let rest = match_regex_lem registry path host (idx + 1) es shift in
      let here : Dict.lookup idx registry ≡ some e = rw add-zero at (found 0) in
      ground (arith, rest, here)

  -- Every id in the `matchit` table is the number of a configured route with that path.
  path_table_sound :
      (idx : ℕ) (routes : List RouteConf) (rs : List (String × ℕ)) (text : String) (id : ℕ)
      → In (text, id) (path_table P idx routes rs)
      → In (text, id) rs
        ⊎ ((k : ℕ) × (route : RouteConf) × (id ≡ idx + k) × (get_elem? routes k ≡ some route))
  path_table_sound idx [] rs text id found = inl found
  path_table_sound idx (route ∷ routes) rs text id found =
      elim (path_table_sound (idx + 1) routes (path_of P route.path_type idx route rs) text id
        found) [
          | inr (k, r, same, here) ↦ inr (suc k, r, omega arith, here)
          | inl before ↦ elim (path_of_sound route.path_type idx route rs text id before) [
            | inl old ↦ inl old
            | inr same ↦ inr (zero, route, omega arith, refl)
          ]
        ]

  get_elem?-map :
      (es : List (RouteEntry P)) (k : ℕ)
      → get_elem? (map conf_of es) k ≡ Option.map conf_of (get_elem? es k)
  get_elem?-map [] k = refl
  get_elem?-map (e ∷ es) zero = refl
  get_elem?-map (e ∷ es) (suc k) = get_elem?-map es k

  entry_of_id :
      (L : MatchitLaws P) (routes : List RouteConf) (r : Router P) (c : Compiled P routes r)
      (path : String) {id : ℕ}
      → matchit_at r.matchit_router path ≡ some id
      → (e : RouteEntry P) × (Dict.lookup id r.route_registry ≡ some e)
        × (get_elem? routes id ≡ some (conf_of e))
  entry_of_id L routes r c path {id} at_id =
      let (text, member, _) = L.at_sound path c.paths at_id in
      elim (path_table_sound 0 routes [] text id member) [
        | inl nowhere ↦ absurd nowhere
        | inr (k, route, same, here) ↦
            let there : get_elem? routes id ≡ some route = rw (same, zero-add) here in
            let mapped : get_elem? routes id ≡ Option.map conf_of (get_elem? c.entries id) =
              rw (← c.confs) (get_elem?-map c.entries id) in
            elim (Option-cases (get_elem? c.entries id)) [
              | inl missing ↦ absurd (ground arith)
              | inr (e, stored) ↦ (e, c.registry id ∙ stored, ground arith)
            ]
      ]

  -- A router that `Router::new` returned never panics on a request, and finds the route that a
  -- search over the configured routes finds: the route of the path's `matchit` id, unless its host
  -- or its exact path differ, and otherwise the first one whose expression matches and whose hosts
  -- admit the request. A differing exact path ends the search, a differing host does not.
  pub match_request-dispatch :
      (L : MatchitLaws P) (conf : GatewayConf) (r : Router P) (path : String) (host : Option String)
      → new P conf ≡ ok r
      → confs (match_request P r path host)
        ≡ ok (dispatch conf.routes (matchit_at r.matchit_router path) path host)
  unfolding match_request
  match_request-dispatch L conf r path host made =
      let c = new-Compiled P conf r made in
      let es = c.entries in
      let start : (k : ℕ) → Dict.lookup (0 + k) r.route_registry ≡ get_elem? es k =
        λ k. rw zero-add (c.registry k) in
      let regexes : confs (match_regex P r.route_registry path host r.regex_routes)
          ≡ ok (first_regex path host conf.routes) =
        rw (c.table, ← c.confs) (match_regex_lem r.route_registry path host 0 es start) in
      elim (Option-cases (matchit_at r.matchit_router path)) [
        | inl unmatched ↦ ground (arith, regexes)
        | inr (id, at_id) ↦
            let (entry, stored, listed) = entry_of_id L conf.routes r c path at_id in
            ground (arith, regexes, stored, listed)
      ]

  -- What a route that is found for a request meets.
  abbrev pub Admits : List RouteConf → String → Option String → RouteConf → Type 0
  Admits routes path host route =
      (validate_host route host ≡ true)
      × ((k : ℕ) × (get_elem? routes k ≡ some route))
      × ((is_exact route.path_type ≡ false) ⊎ (path ≡ route.path))

  by_regex-IsRegex :
      (t : PathType) (route : RouteConf) (path : String)
      → by_regex t route path ≡ true
      → is_exact t ≡ false
  by_regex-IsRegex regex route path h = refl
  by_regex-IsRegex prefix route path h = refl
  by_regex-IsRegex exact route path h = cc

  first_regex_sound :
      (routes : List RouteConf) (path : String) (host : Option String) (route : RouteConf)
      → first_regex path host routes ≡ some route
      → Admits routes path host route
  first_regex_sound [] path host route found = cc
  first_regex_sound (x ∷ xs) path host route found =
      elim (Bool-cases (by_regex x.path_type x path && validate_host x host)) [
        | inl here ↦
            let same : x ≡ route = ground arith in
            let (matched, admitted) = and_true here in
            (
              rw (← same) admitted,
              (0, ap some same),
              inl (rw (← same) (by_regex-IsRegex x.path_type x path matched)),
            )
        | inr there ↦
            let (admitted, (k, listed), shape) =
              first_regex_sound xs path host route (ground arith) in
            (admitted, (suc k, listed), shape)
      ]

  dispatch_sound :
      (routes : List RouteConf) (o : Option ℕ) (path : String) (host : Option String)
      (route : RouteConf)
      → dispatch routes o path host ≡ some route
      → Admits routes path host route
  dispatch_sound routes none path host route found = first_regex_sound routes path host route found
  dispatch_sound routes (some id) path host route found =
      elim (Option-cases (get_elem? routes id)) [
        | inl missing ↦ absurd (ground arith)
        | inr (x, listed) ↦ elim (Bool-cases (is_exact x.path_type && not (path == x.path))) [
          | inl differs ↦ absurd (ground arith)
          | inr fits ↦ elim (Bool-cases (validate_host x host)) [
            | inr refused ↦ first_regex_sound routes path host route (ground arith)
            | inl admitted ↦
                let same : x ≡ route = ground arith in
                (
                  rw (← same) admitted,
                  (id, listed ∙ ap some same),
                  rw (← same) (exact_or (is_exact x.path_type) path x.path fits),
                )
          ]
        ]
      ]

  -- A request that gets a route is admitted by the route's hosts; the route is a configured one, and
  -- has the request's path if it is exact.
  pub match_request_sound :
      (L : MatchitLaws P) (conf : GatewayConf) (r : Router P) (path : String) (host : Option String)
      (e : RouteEntry P)
      → new P conf ≡ ok r
      → match_request P r path host ≡ ok (some e)
      → Admits conf.routes path host (conf_of e)
  match_request_sound L conf r path host e made found =
      dispatch_sound conf.routes (matchit_at r.matchit_router path) path host (conf_of e)
        (ground (arith, match_request-dispatch L conf r path host made))
