-- ===== src/Examples/Routing.antt =====
-- src/upstreams/router.rs at a configuration with three routes.
use pingora_guide.Base.{◌≡◌, refl, none, some, [], ◌∷◌, ok}
use pingora_guide.Base.Dict
use pingora_guide.Base.Text.{starts_with}
use pingora_guide.Config.{
  RouteConf, GatewayConf, default_route, default_gateway, default_headers, exact, regex,
}
use pingora_guide.Router.{
  Router, RouteEntry, new, add_routes, add_route, index_path, index_matchit, index_regex,
  compile_acl, parse_nets, match_request, match_regex, validate_host,
}
use pingora_guide.Router.Build.{Compiled, new-Compiled}
use pingora_guide.Router.Dispatch.{
  match_request-dispatch, match_request_sound, confs, dispatch, Admits,
}
use pingora_guide.Router.Rejects.{
  FirstRefused, refused_here, refused_later, bad_network, new_rejects,
}
use pingora_guide.Router.Networks.{bad_here}
use pingora_guide.Error.{gateway, acl_error}
use pingora_guide.Base.{◌↔◌, err}
use pingora_guide.Router.{empty_router}
use pingora_guide.Examples.Instance.{sample, matchit_laws}

-- An exact route for one host, with an access control and headers.
abbrev pub shop : RouteConf
shop = record default_route {
  path = "/shop";
  path_type = exact;
  upstream_id = "shop";
  hostnames = some ("a.org" ∷ []);
  access_control = some (record { allow = []; deny = "10.0.0.9" ∷ [] });
  headers = record default_headers {
    add_req_headers = ("X-Gateway", "1") ∷ [];
    remove_req_headers = "Cookie" ∷ [];
    add_resp_headers = ("X-Served", "1") ∷ [];
    remove_resp_headers = "Server" ∷ [];
  };
  error_pages = some ((502, "502.html") ∷ []);
}

-- The same path as an expression, for every host.
abbrev pub other_hosts : RouteConf
other_hosts = record default_route { path = "/shop"; path_type = regex; upstream_id = "all" }

abbrev pub files : RouteConf
files = record default_route { path = "/files"; upstream_id = "files" }

abbrev pub three : GatewayConf
three = record default_gateway { routes = shop ∷ other_hosts ∷ files ∷ [] }

abbrev pub entry_of : RouteConf → RouteEntry sample
entry_of conf = record { conf = record { inner = conf }; access_control = none }

abbrev pub shop_entry : RouteEntry sample
shop_entry = record (entry_of shop) {
  access_control = some (record { inner = record { allow = []; deny = "10.0.0.9" ∷ [] } });
}

abbrev pub three_router : Router sample
three_router = record {
  regex_routes = ("/shop", 1) ∷ [];
  matchit_router = ("/shop", 0) ∷ ("/files", 2) ∷ [];
  route_registry = (0, shop_entry) ∷ (1, entry_of other_hosts) ∷ (2, entry_of files) ∷ [];
}

pub three_built : new sample three ≡ ok three_router
unfolding new add_routes add_route index_path index_matchit index_regex compile_acl parse_nets
    starts_with Dict.insert
three_built = refl

pub shop_found : match_request sample three_router "/shop" (some "a.org") ≡ ok (some shop_entry)
unfolding match_request match_regex validate_host Dict.lookup
shop_found = refl

-- The exact route is for another host: the expression of the same path is tried.
falls_back :
    match_request sample three_router "/shop" (some "b.org") ≡ ok (some (entry_of other_hosts))
unfolding match_request match_regex validate_host Dict.lookup
falls_back = refl

new-Compiled_example : Compiled sample three.routes three_router
new-Compiled_example = new-Compiled sample three three_router three_built

match_request-dispatch_example :
    confs sample (match_request sample three_router "/shop" (some "b.org"))
    ≡ ok (dispatch sample three.routes (some 0) "/shop" (some "b.org"))
unfolding Dict.lookup
match_request-dispatch_example =
    match_request-dispatch sample matchit_laws three three_router "/shop" (some "b.org") three_built

match_request_sound_example : Admits sample three.routes "/shop" (some "a.org") shop
match_request_sound_example =
    match_request_sound sample matchit_laws three three_router "/shop" (some "a.org") shop_entry
      three_built shop_found

-- A second route whose access control is malformed.
abbrev private_files : RouteConf
private_files = record files {
  access_control = some (record { allow = "10.0.0.1" ∷ []; deny = "bad" ∷ [] });
}

abbrev malformed : GatewayConf
malformed = record default_gateway { routes = shop ∷ private_files ∷ [] }

new_rejects_example :
    new sample malformed ≡ err (gateway (acl_error "invalid"))
    ↔ FirstRefused sample 0 malformed.routes (empty_router sample) (gateway (acl_error "invalid"))
new_rejects_example = new_rejects sample malformed (gateway (acl_error "invalid"))

-- It is the second route that is refused.
second_refused :
    FirstRefused sample 0 malformed.routes (empty_router sample) (gateway (acl_error "invalid"))
unfolding add_routes add_route index_path index_matchit compile_acl parse_nets starts_with
    Dict.insert
second_refused = refused_later refl (refused_here (bad_network refl refl (bad_here refl)))
