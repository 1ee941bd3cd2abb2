-- ===== src/Startup/Trace.antt =====
-- src/main.rs: the start as the sequence of its calls that may fail.
use mathlib.Core.List.{map-append}
use pingora_guide.Base.{
  ℕ, ◌+◌, Bool, ◌≡◌, refl, String, Option, none, some, List, [], ◌∷◌, ◌++◌, map, arith, Outcome, ok,
  err, panic, Act, pure, lift, string_eq, ◌>>=◌, ◌>>◌, map_err, inl, inr, outcome-cases,
  Option-cases,
}
use pingora_guide.Base.Dict
use pingora_guide.Base.Dict.{Dict}
use pingora_guide.Config.{
  UpstreamConf, GatewayConf, BackendConf, UpstreamSource, static_source, dns, file, uds,
  ListenerConf, TlsSettings,
}
use pingora_guide.Error.{internal_error}
use pingora_guide.Pingora.{Pingora}
use pingora_guide.Router
use pingora_guide.Upstream.{Upstream}
use pingora_guide.Upstreams.Factory.{
  LbPlan, Service, resolve, insert_all, plan_lb, make_lb_instance, make_for, make_upstream,
}
use pingora_guide.Middlewares.Metrics.Registration
use pingora_guide.Startup.{
  Host, open_server, register_metrics, services_of, is_daemon, Args, StartError, config_error,
  server_error, router_error, Start, Listener, tcp_listener, tls_listener, init_upstreams,
  add_listeners, assemble, start,
}

-- A call whose result is dropped.
abbrev pub forget : {S E A : Type 0} → Act S E A → Act S E (Unit {0})
forget m = m >> pure tt

-- The addresses that are looked up for an upstream: those of configured backends. A name or a file is
-- read when the server runs.
abbrev pub looked_up : UpstreamSource → List String
looked_up (static_source backends) = map (λ b. b.address) backends
looked_up (dns hostname refresh) = []
looked_up (file path format refresh) = []
looked_up (uds path) = []

abbrev pub lookups : List UpstreamConf → List String
lookups [] = []
lookups (u ∷ us) = looked_up u.source ++ lookups us

-- The listeners' certificates and keys.
abbrev pub own_certificate : Option TlsSettings → List (String × String)
own_certificate none = []
own_certificate (some tls) = (tls.cert_path, tls.key_path) ∷ []

abbrev pub certificates : List ListenerConf → List (String × String)
certificates [] = []
certificates (l ∷ ls) = own_certificate l.tls ++ certificates ls

-- A call of the start that may fail.
pub data Outside : Type 0 where
  -- `Server::new`, with the daemon flag
  launch : Bool → Outside
  look_up : String → Outside
  route register : Outside
  check : String × String → Outside

-- The calls of the start, in order: the server, a look-up for each address, the router, the metrics,
-- and a check for each certificate.
abbrev pub outside : Bool → GatewayConf → List Outside
outside daemon conf =
    launch daemon
    ∷ (map look_up (lookups conf.upstreams)
        ++ (route ∷ register ∷ map check (certificates conf.server.listeners)))

module _ (P : Pingora) where
  open P use {Error, explain}

  module _ (load : ℕ → String → Outcome String GatewayConf) (host : Host P)
      (add_tls : ℕ → String → String → Outcome Error (Unit {0}))
      (task : LbPlan P → P.LoadBalancer) where
    abbrev pub perform : GatewayConf → Outside → Act ℕ (StartError P) (Unit {0})
    perform conf (launch daemon) n = elim (host.server_new n daemon) [
      | ok unshared ↦ (ok tt, n + 1)
      | err e ↦ (err (server_error e), n + 1)
      | panic message ↦ (panic message, n + 1)
    ]
    perform conf register n = elim (Registration.new host.Metrics (host.registry n)).0 [
      | ok metrics ↦ (ok tt, n + 1)
      | err e ↦ (err (config_error e), n + 1)
      | panic message ↦ (panic message, n + 1)
    ]
    perform conf (look_up address) n = elim (P.to_socket_addrs n address) [
      | ok addrs ↦ (ok tt, n + 1)
      | err e ↦ (err (server_error (explain internal_error e)), n + 1)
      | panic message ↦ (panic message, n + 1)
    ]
    perform conf route n = elim (Router.new P conf) [
      | ok router ↦ (ok tt, n)
      | err e ↦ (err (router_error e), n)
      | panic message ↦ (panic message, n)
    ]
    perform conf (check (cert, key)) n = elim (add_tls n cert key) [
      | ok _ ↦ (ok tt, n + 1)
      | err e ↦ (err (server_error e), n + 1)
      | panic message ↦ (panic message, n + 1)
    ]

    -- One call after the other, up to the first that does not return.
    unfoldable pub perform_all : GatewayConf → List Outside → Act ℕ (StartError P) (Unit {0})
    perform_all conf [] = pure tt
    perform_all conf (x ∷ xs) = perform conf x >> perform_all conf xs

    Performs : GatewayConf → {A : Type 0} → Act ℕ (StartError P) A → List Outside → Type 0
    Performs conf m xs = (n : ℕ) → forget m n ≡ perform_all conf xs n

    perform_all-append :
        (conf : GatewayConf) (xs ys : List Outside) (n : ℕ)
        → perform_all conf (xs ++ ys) n ≡ (perform_all conf xs >> perform_all conf ys) n
    unfolding perform_all
    perform_all-append conf [] ys n = refl
    perform_all-append conf (x ∷ xs) ys n = elim (outcome-cases (perform conf x n).0) [
      | inl (_, returned) ↦ ground (arith, perform_all-append conf xs ys (perform conf x n).1)
      | inr (inl (e, failed)) ↦ ground arith
      | inr (inr (m, stopped)) ↦ ground arith
    ]

    -- A step and what follows perform the calls of both.
    bind-Performs :
        (conf : GatewayConf) {A B : Type 0} (m : Act ℕ (StartError P) A)
        (k : A → Act ℕ (StartError P) B) (xs ys : List Outside)
        → Performs conf m xs
        → ((a : A) → Performs conf (k a) ys)
        → Performs conf (m >>= k) (xs ++ ys)
    unfolding Performs
    bind-Performs conf m k xs ys first next n = elim (outcome-cases (m n).0) [
      | inl (a, returned) ↦ ground (arith, first n, next a (m n).1, perform_all-append conf xs ys n)
      | inr (inl (e, failed)) ↦ ground (arith, first n, perform_all-append conf xs ys n)
      | inr (inr (message, stopped)) ↦ ground (arith, first n, perform_all-append conf xs ys n)
    ]

    resolve-Performs :
        (conf : GatewayConf) (backends : List BackendConf) (acc : List P.Backend)
        → Performs conf
            (map_err server_error (resolve P backends acc))
            (map look_up (map (λ b. b.address) backends))
    unfolding Performs resolve perform_all
    resolve-Performs conf [] acc n = refl
    resolve-Performs conf (b ∷ backends) acc n =
        elim (outcome-cases (P.to_socket_addrs n b.address)) [
          | inl (addrs, found) ↦ ground (
            arith,
            found,
            resolve-Performs conf backends (insert_all P b.weight addrs acc) (n + 1),
          )
          | inr (inl (e, failed)) ↦ ground (arith, failed)
          | inr (inr (m, stopped)) ↦ ground (arith, stopped)
        ]

    make_for-Performs :
        (conf : GatewayConf) (source : UpstreamSource) (u : UpstreamConf)
        → u.source ≡ source
        → Performs conf
            (map_err server_error (make_for P task source u))
            (map look_up (looked_up source))
    unfolding Performs make_for perform_all make_lb_instance plan_lb
    make_for-Performs conf (static_source backends) u same n =
        elim (outcome-cases (resolve P backends [] n).0) [
          | inl (bs, found) ↦ ground (arith, same, found, resolve-Performs conf backends [] n)
          | inr (inl (e, failed)) ↦
              ground (arith, same, failed, resolve-Performs conf backends [] n)
          | inr (inr (m, stopped)) ↦
              ground (arith, same, stopped, resolve-Performs conf backends [] n)
        ]
    make_for-Performs conf (dns hostname refresh) u same n = ground (arith, same)
    make_for-Performs conf (file path format refresh) u same n = ground (arith, same)
    make_for-Performs conf (uds path) u same n = refl

    init_upstreams-Performs :
        (conf : GatewayConf) (us : List UpstreamConf) (d : Dict String (Upstream P))
        (services : List (Service P))
        → Performs conf
            (init_upstreams P load host add_tls task us d services)
            (map look_up (lookups us))
    unfolding Performs perform_all init_upstreams make_upstream
    init_upstreams-Performs conf [] d services n = refl
    init_upstreams-Performs conf (u ∷ us) d services n = rw map-append (
        bind-Performs conf (map_err server_error (make_for P task u.source u)) _
          (map look_up (looked_up u.source)) (map look_up (lookups us))
          (make_for-Performs conf u.source u refl)
          (λ made. init_upstreams-Performs conf us (Dict.insert u.id made.0 d) (services ++ made.1))
          n)

    add_listeners-Performs :
        (conf : GatewayConf) (ls : List ListenerConf) (added : List (Listener P))
        → Performs conf
            (add_listeners P load host add_tls task ls added)
            (map check (certificates ls))
    unfolding add_listeners Performs perform_all
    add_listeners-Performs conf [] added n = refl
    add_listeners-Performs conf (l ∷ ls) added n = elim (Option-cases l.tls) [
      | inl plain ↦
          ground (
            arith,
            plain,
            add_listeners-Performs conf ls (added ++ (tcp_listener l.address ∷ [])) n,
          )
      | inr (tls, secured) ↦ elim (outcome-cases (add_tls n tls.cert_path tls.key_path)) [
        | inl (_, loaded) ↦ ground (
          arith,
          secured,
          loaded,
          add_listeners-Performs conf ls
              (added ++ (tls_listener l.address tls.cert_path tls.key_path ∷ [])) (n + 1),
        )
        | inr (inl (e, failed)) ↦ ground (arith, secured, failed)
        | inr (inr (m, stopped)) ↦ ground (arith, secured, stopped)
      ]
    ]

    route-Performs :
        (conf : GatewayConf) → Performs conf (lift router_error (Router.new P conf)) (route ∷ [])
    unfolding Performs perform_all
    route-Performs conf n = elim (outcome-cases (Router.new P conf)) [
      | inl (router, routed) ↦ ground arith
      | inr (inl (e, failed)) ↦ ground arith
      | inr (inr (m, stopped)) ↦ ground arith
    ]

    -- A step whose result goes into a value performs the calls of the step.
    map-Performs :
        (conf : GatewayConf) {A B : Type 0} (m : Act ℕ (StartError P) A) (f : A → B)
        (xs : List Outside)
        → Performs conf m xs
        → Performs conf (m >>= λ a. pure (f a)) xs
    unfolding Performs
    map-Performs conf m f xs done n = elim (outcome-cases (m n).0) [
      | inl (a, returned) ↦ ground (arith, done n)
      | inr (inl (e, failed)) ↦ ground (arith, done n)
      | inr (inr (message, stopped)) ↦ ground (arith, done n)
    ]

    open_server-Performs :
        (args : Args) (conf : GatewayConf)
        → Performs conf
            (open_server P load host add_tls task args conf)
            (launch (is_daemon P load host add_tls task args conf) ∷ [])
    unfolding Performs perform_all
    open_server-Performs args conf n =
        elim (outcome-cases (host.server_new n (is_daemon P load host add_tls task args conf))) [
          | inl (unshared, opened) ↦ ground arith
          | inr (inl (e, failed)) ↦ ground arith
          | inr (inr (m, stopped)) ↦ ground arith
        ]

    register-Performs :
        (conf : GatewayConf)
        → Performs conf (register_metrics P load host add_tls task) (register ∷ [])
    unfolding Performs perform_all
    register-Performs conf n =
        elim (outcome-cases (Registration.new host.Metrics (host.registry n)).0) [
          | inl (metrics, registered) ↦ ground arith
          | inr (inl (e, failed)) ↦ ground arith
          | inr (inr (m, stopped)) ↦ ground arith
        ]

    services_of-Performs :
        (conf : GatewayConf)
        → Performs conf (services_of P load host add_tls task conf) (
            map look_up (lookups conf.upstreams)
            ++ (route ∷ register ∷ map check (certificates conf.server.listeners)))
    unfolding services_of
    services_of-Performs conf =
        let checks = map check (certificates conf.server.listeners) in
        bind-Performs conf (init_upstreams P load host add_tls task conf.upstreams [] []) _
          (map look_up (lookups conf.upstreams)) (route ∷ register ∷ checks)
          (init_upstreams-Performs conf conf.upstreams [] [])
          (λ made.
            bind-Performs conf (lift router_error (Router.new P conf)) _ (route ∷ [])
              (register ∷ checks) (route-Performs conf)
              (λ router.
                bind-Performs conf (register_metrics P load host add_tls task) _ (register ∷ [])
                  checks (register-Performs conf)
                  (λ metrics.
                    map-Performs conf
                      (add_listeners P load host add_tls task conf.server.listeners []) _ checks
                      (add_listeners-Performs conf conf.server.listeners []))))

    assemble-Performs :
        (args : Args) (conf : GatewayConf)
        → Performs conf
            (assemble P load host add_tls task args conf)
            (outside (is_daemon P load host add_tls task args conf) conf)
    unfolding assemble
    assemble-Performs args conf =
        bind-Performs conf (open_server P load host add_tls task args conf) _
          (launch (is_daemon P load host add_tls task args conf) ∷ []) _
          (open_server-Performs args conf)
          (λ settings.
            map-Performs conf (services_of P load host add_tls task conf) _ _
              (services_of-Performs conf))

    -- The configuration that is loaded.
    abbrev pub loaded : Args → Start P GatewayConf
    loaded args n = lift config_error (load n args.config) (n + 1)

    -- The start succeeds, fails or panics as its calls do, one after the other: the load of the
    -- configuration, the server, a look-up for each address of an upstream with a list of backends, in
    -- the order of the configuration, the router, the metrics, and a check for each certificate; the
    -- first that does not succeed decides the outcome, and none after it is made.
    pub start_performs :
        (args : Args) (n : ℕ)
        → forget (start P load host add_tls task args) n
          ≡ (loaded args >>= λ conf.
                perform_all conf (outside (is_daemon P load host add_tls task args conf) conf))
              n
    unfolding start Performs
    start_performs args n = elim (outcome-cases (load n args.config)) [
      | inl (conf, read) ↦ ground (arith, read, assemble-Performs args conf (n + 1))
      | inr (inl (e, failed)) ↦ ground (arith, failed)
      | inr (inr (m, stopped)) ↦ ground (arith, stopped)
    ]
