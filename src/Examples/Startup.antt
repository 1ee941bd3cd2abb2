-- ===== src/Examples/Startup.antt =====
-- src/main.rs at a configuration with one upstream.
use pingora_guide.Base.{true, ◌+◌}
use pingora_guide.Base.{List, map, ◌++◌, ℕ, ◌≡◌, refl, String, false, none, [], ◌∷◌, Outcome, ok}
use pingora_guide.Base.Dict
use pingora_guide.Base.Text.{starts_with}
use pingora_guide.Config.{
  UpstreamConf, GatewayConf, default_gateway, default_options, uds, dns, round_robin, no_source,
}
use pingora_guide.Router
use pingora_guide.Router.{Router}
use pingora_guide.Request.{World}
use pingora_guide.Upstreams.StaticUpstream
use pingora_guide.Upstreams.Factory.{
  LbPlan, Service, make_lb_instance, plan_lb, finalize_lb, make_upstream, make_for,
}
use pingora_guide.Middlewares.RequestSize
use pingora_guide.Gateway.Chain.{Gateway}
use pingora_guide.Gateway.Requests.{new_ctx, request_filter}
use pingora_guide.Gateway.Connections.{upstream_peer}
use pingora_guide.Middlewares.Metrics.Registration
use pingora_guide.Startup.{
  Host, is_daemon, services_of, Args, Server, ServerService, Listener, background, proxy,
  init_upstreams, add_listeners, assemble,
}
use pingora_guide.Startup.Panics.{crate_chain}
use pingora_guide.Startup.Phases.{Step, Reach, IsStuck, every_phase-IsStuck}
use pingora_guide.Startup.Serving.{AllOwn, Exports, assembled_services}
use pingora_guide.Startup.Trace.{
  launch, register, forget, loaded, perform_all, outside, start_performs, look_up, route, check,
}
use pingora_guide.Startup.{start}
use pingora_guide.Base.{◌>>=◌, some}
use pingora_guide.Config.{static_source}
use pingora_guide.Config.{http}
use pingora_guide.Startup.Unused.{Unused, varied, init_upstreams-varied}
use pingora_guide.Startup.Complete.{configured_upstreams, IsThere}
use pingora_guide.Examples.Instance.{sample, request, world}
use pingora_guide.Examples.Routing.{shop, shop_entry}

abbrev backend : UpstreamConf
backend = record {
  id = "shop";
  source = uds "/run/app";
  selection = round_robin;
  hash_source = no_source;
  options = default_options;
  health_check = none;
  backup_backends = [];
}

abbrev small : GatewayConf
small = record default_gateway { upstreams = backend ∷ []; routes = shop ∷ [] }

-- A host with four CPUs, whose metrics are registered.
abbrev host : Host sample
host = record {
  cpus = 4;
  server_new = λ n daemon. ok true;
  Metrics = record {
    Registry = ℕ;
    IntCounterVec = ℕ;
    HistogramVec = ℕ;
    register_int_counter_vec = λ opts registry. (ok registry, registry + 1);
    register_histogram_vec = λ opts registry. (ok registry, registry + 1);
  };
  registry = λ n. 0;
}

abbrev load : ℕ → String → Outcome String GatewayConf
load n path = ok small

abbrev add_tls : ℕ → String → String → Outcome sample.Error (Unit {0})
add_tls n cert key = ok tt

abbrev task : LbPlan sample → sample.LoadBalancer
task plan = "10.1.0.1" ∷ []

abbrev gateway : Gateway sample
gateway = record {
  conf = small;
  router = record {
    regex_routes = [];
    matchit_router = ("/shop", 0) ∷ [];
    route_registry = (0, shop_entry) ∷ [];
  };
  upstreams =
      (
        "shop",
        StaticUpstream.static_upstream sample
            (StaticUpstream.new_uds sample "/run/app" default_options),
      )
      ∷ [];
  middlewares = crate_chain sample (RequestSize.new small.server);
}

abbrev args : Args
args = record { config = "gateway.yaml"; daemon = false }

abbrev server : Server sample
server = record {
  daemon = false;
  settings = record { pid_file = none; threads = some 4; grace_period_seconds = some 30 };
  services = proxy gateway [] ∷ [];
}

assembled : assemble sample load host add_tls task args small 0 ≡ (ok server, 2)
unfolding assemble services_of Registration.new init_upstreams add_listeners make_upstream make_for
    Router.new Router.add_routes Router.add_route Router.index_path Router.index_matchit
    Router.compile_acl Router.parse_nets starts_with Dict.insert
assembled = refl

abbrev incoming : World sample
incoming = world (record (request "/shop") { headers = ("Host", "a.org") ∷ [] }) (new_ctx sample 5)

abbrev filtered : World sample
filtered = (request_filter sample gateway incoming).1

abbrev chosen : World sample
chosen = (upstream_peer sample gateway filtered).1

configured_upstreams_example : IsThere sample "shop" gateway.upstreams × Unit {0}
configured_upstreams_example =
    configured_upstreams sample load host add_tls task args small 0 assembled refl

every_phase-IsStuck_example : IsStuck sample gateway chosen
every_phase-IsStuck_example =
    every_phase-IsStuck sample load host add_tls task args small 0 assembled refl 5 incoming chosen
      refl (Reach.next (Reach.next Reach.here (Step.filter refl)) (Step.peer refl))

-- A socket and a balanced upstream.
abbrev mixed : GatewayConf
mixed = record small {
  upstreams =
      backend
      ∷ record backend { id = "api"; source = dns "api.internal" 60; selection = round_robin }
      ∷ [];
}

abbrev mixed_server : Server sample
unfolding assemble services_of Registration.new init_upstreams add_listeners make_upstream make_for
    make_lb_instance plan_lb finalize_lb Router.new Router.add_routes Router.add_route
    Router.index_path Router.index_matchit Router.compile_acl Router.parse_nets starts_with
    Dict.insert
mixed_server = elim (assemble sample load host add_tls task args mixed 0).0 [
  | ok s ↦ s
  | _ ↦ server
]

mixed_assembled : assemble sample load host add_tls task args mixed 0 ≡ (ok mixed_server, 2)
unfolding assemble services_of Registration.new init_upstreams add_listeners make_upstream make_for
    make_lb_instance plan_lb finalize_lb Router.new Router.add_routes Router.add_route
    Router.index_path Router.index_matchit Router.compile_acl Router.parse_nets starts_with
    Dict.insert mixed_server
mixed_assembled = refl

assembled_services_example :
    (g : Gateway sample) × (ls : List (Listener sample)) × (services : List (Service sample))
    × (exporter : List (ServerService sample)) × (mixed_server.services
        ≡ proxy g ls ∷ (map background services ++ exporter))
    × AllOwn sample mixed.upstreams services
    × Exports sample none exporter
assembled_services_example =
    assembled_services sample load host add_tls task args mixed 0 mixed_assembled

-- A balanced upstream with an HTTP health check.
abbrev probed : UpstreamConf
probed = record backend {
  id = "api";
  source = dns "api.internal" 60;
  health_check = some (
      http (record { interval = 5; timeout = 1; consecutive_success = 1; consecutive_failure = 2 })
        "/up" 200);
}

abbrev values : Unused
values = record {
  backup_backends = record { address = "10.0.0.99:80"; weight = 1 } ∷ [];
  connection_pool_size = 64;
  expected_status = 204;
}

init_upstreams-varied_example :
    init_upstreams sample load host add_tls task
      (varied values backend ∷ varied values probed ∷ [])
      []
      []
      0
    ≡ init_upstreams sample load host add_tls task (backend ∷ probed ∷ []) [] [] 0
init_upstreams-varied_example =
    init_upstreams-varied sample load host add_tls task (λ u. values) (backend ∷ probed ∷ []) [] []
      0

-- Two addresses, a socket and a certificate.
abbrev secured : GatewayConf
secured = record small {
  upstreams =
      record backend {
        id = "api";
        source = static_source (
            record { address = "a:80"; weight = 1 } ∷ record { address = "b:80"; weight = 2 } ∷ []);
      }
      ∷ backend
      ∷ [];
  server = record small.server {
    listeners =
        record { address = "0.0.0.0:80"; tls = none }
        ∷ record {
          address = "0.0.0.0:443";
          tls = some (record { cert_path = "cert.pem"; key_path = "key.pem"; mtls_ca_cert = none });
        }
        ∷ [];
  };
}

secured_calls :
    outside true secured
    ≡ launch true
      ∷ look_up "a:80"
      ∷ look_up "b:80"
      ∷ route
      ∷ register
      ∷ check ("cert.pem", "key.pem")
      ∷ []
secured_calls = refl

abbrev load_secured : ℕ → String → Outcome String GatewayConf
load_secured n path = ok secured

start_performs_example :
    forget (start sample load_secured host add_tls task args) 0
    ≡ (loaded sample load_secured host add_tls task args >>= λ conf.
          perform_all sample load_secured host add_tls task conf
            (outside (is_daemon sample load_secured host add_tls task args conf) conf))
        0
start_performs_example = start_performs sample load_secured host add_tls task args 0
