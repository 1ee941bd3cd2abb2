-- ===== src/Router/Defs.antt =====
-- src/upstreams/router.rs: `Router::new`, `match_request` and `validate_host`.
use pingora_guide.Base.{
  ℕ, ◌+◌, String, Bool, true, false, not, ◌&&◌, ◌||◌, Option, none, some, List, [], ◌∷◌, ◌++◌,
  Outcome, ok, err, panic, Act, pure, throw, ◌>>=◌, ◌>>◌, modify, lift, any, is_empty, ◌==◌, nat_eq,
  string_eq, if◌then◌else◌,
}
use pingora_guide.Base.Dict
use pingora_guide.Base.Dict.{Dict}
use pingora_guide.Base.Text.{starts_with, ◌<>◌}
use pingora_guide.Config.{RouteConf, PathType, prefix, exact, regex, AccessControlConf, GatewayConf}
use pingora_guide.Error.{PingoraGuideError, gateway, route_error, acl_error}
use pingora_guide.Pingora.{Pingora}

-- `Arc<T>`: a type of its own, told from `T` by its `TypeId`.
pub record Arc (A : Type 0) : Type 0 where
  pub inner : A

unfoldable pub validate_host : RouteConf → Option String → Bool
validate_host route host = elim route.hostnames [
  | some allowed_hosts ↦ elim host [
    | some h ↦ any (λ allowed. allowed == h) allowed_hosts
    | none ↦ false
  ]
  | none ↦ true
]

abbrev pub is_exact : PathType → Bool
is_exact exact = true
is_exact prefix = false
is_exact regex = false

module _ (P : Pingora) where
  open P use {Error, IpNet, Regex, Matchit, regex_new, matchit_new, matchit_insert, matchit_at}
  open P use {is_match, net_from_str}

  pub record CompiledAccessControl : Type 0 where
    pub allow : List IpNet
    pub deny : List IpNet

  pub record RouteEntry : Type 0 where
    pub conf : Arc RouteConf
    pub access_control : Option (Arc CompiledAccessControl)

  pub record Router : Type 0 where
    pub regex_routes : List (Regex × ℕ)
    pub matchit_router : Matchit
    pub route_registry : Dict ℕ RouteEntry

  -- The local variables of `Router::new` are a `Router` under construction.
  abbrev pub Build : Type 0 → Type 0
  Build = Act (Router) (PingoraGuideError Error)

  unfoldable pub index_regex : ℕ → RouteConf → Build (Unit {0})
  index_regex idx route = do
    re ←
        lift
          (λ e.
            gateway (route_error ("Invalid Regex in configuration '" <> route.path <> "': " <> e)))
          (regex_new route.path)
    modify (λ r. record r { regex_routes = r.regex_routes ++ ((re, idx) ∷ []) })

  unfoldable pub index_matchit : ℕ → RouteConf → Build (Unit {0})
  index_matchit idx route r =
      if not (starts_with route.path "/")
      then throw
          (gateway
            (route_error ("Warning: Prefix route '" <> route.path <> "' does not start with '/'")))
          r
      else (do
        m ←
            lift
              (λ e. gateway (route_error ("Failed to insert route '" <> route.path <> "': " <> e)))
              (matchit_insert route.path idx r.matchit_router)
        modify (λ r. record r { matchit_router = m }))
          r

  -- `match route.path_type`
  unfoldable pub index_path : PathType → ℕ → RouteConf → Build (Unit {0})
  index_path regex idx route = index_regex idx route
  index_path prefix idx route = index_matchit idx route
  index_path exact idx route = index_matchit idx route

  unfoldable pub parse_nets : List String → Build (List IpNet)
  parse_nets [] = pure []
  parse_nets (block ∷ blocks) = do
    net ← lift (λ e. gateway (acl_error e)) (net_from_str block)
    nets ← parse_nets blocks
    pure (net ∷ nets)

  -- An access control with neither list is dropped.
  abbrev pub non_empty : List IpNet → List IpNet → Option (Arc CompiledAccessControl)
  non_empty deny allow =
      if not (is_empty allow) || not (is_empty deny)
      then some (record { inner = record { allow = allow; deny = deny } })
      else none

  unfoldable pub compile_acl : Option AccessControlConf → Build (Option (Arc CompiledAccessControl))
  compile_acl none = pure none
  compile_acl (some acl) = do
    deny ← parse_nets acl.deny
    allow ← parse_nets acl.allow
    pure (non_empty deny allow)

  -- One round of the loop of `Router::new`.
  unfoldable pub add_route : ℕ → RouteConf → Build (Unit {0})
  add_route idx route = do
    index_path route.path_type idx route
    acl ← compile_acl route.access_control
    modify (λ r. record r {
      route_registry =
          Dict.insert idx (record { conf = record { inner = route }; access_control = acl })
            r.route_registry;
    })

  unfoldable pub add_routes : ℕ → List RouteConf → Build (Unit {0})
  add_routes idx [] = pure tt
  add_routes idx (route ∷ routes) = do add_route idx route; add_routes (idx + 1) routes

  abbrev pub empty_router : Router
  empty_router = record { regex_routes = []; matchit_router = matchit_new; route_registry = [] }

  -- `Router::new`
  unfoldable pub new : GatewayConf → Outcome (PingoraGuideError Error) (Router)
  new conf =
      let (result, r) = add_routes 0 conf.routes empty_router in
      elim result [ ok _ ↦ ok r | err e ↦ err e | panic message ↦ panic message ]

  -- The loop over the compiled expressions.
  unfoldable pub match_regex :
      Dict ℕ RouteEntry
      → String
      → Option String
      → List (Regex × ℕ)
      → Outcome Error (Option RouteEntry)
  match_regex registry path host [] = ok none
  match_regex registry path host ((re, id) ∷ routes) =
      let rest = match_regex registry path host routes in
      if is_match re path
      then elim (Dict.lookup id registry) [
        | none ↦ panic "no entry found for key"
        | some route ↦ if validate_host route.conf.inner host then ok (some route) else rest
      ]
      else rest

  -- `Router::match_request`; indexing the registry with an unknown key panics.
  unfoldable pub match_request : Router → String → Option String → Outcome Error (Option RouteEntry)
  match_request r path host =
      let by_regex = match_regex r.route_registry path host r.regex_routes in
      elim (matchit_at r.matchit_router path) [
        | none ↦ by_regex
        | some id ↦ elim (Dict.lookup id r.route_registry) [
          | none ↦ panic "no entry found for key"
          | some route ↦
              if is_exact route.conf.inner.path_type && not (path == route.conf.inner.path)
              then ok none
              else if validate_host route.conf.inner host
              then ok (some route)
              else by_regex
        ]
      ]
