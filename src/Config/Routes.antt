-- ===== src/Config/Routes.antt =====
-- src/config.rs: what a route matches and what is done with its requests.
use pingora_guide.Base.{ℕ, String, Bool, false, Option, none, List, []}
use pingora_guide.Base.Dict.{Dict}
use pingora_guide.Config.Upstreams.{Duration}

pub data PathType : Type 0 where
  prefix exact regex : PathType

pub record HeaderConf : Type 0 where
  pub add_req_headers : Dict String String
  pub remove_req_headers : List String
  pub add_resp_headers : Dict String String
  pub remove_resp_headers : List String
  pub preserve_host_header : Bool

-- `HeaderConf::default`
abbrev pub default_headers : HeaderConf
default_headers = record {
  add_req_headers = [];
  remove_req_headers = [];
  add_resp_headers = [];
  remove_resp_headers = [];
  preserve_host_header = false;
}

pub data RateLimitKey : Type 0 where
  by_ip : RateLimitKey
  by_header : String → RateLimitKey

pub record AccessControlConf : Type 0 where
  pub allow : List String
  pub deny : List String

pub data AuthConf : Type 0 where
  -- realm, users
  basic : String → Dict String String → AuthConf
  -- auth_uri, headers_to_copy
  request : String → List String → AuthConf

pub record CacheConf : Type 0 where
  pub enabled : Bool
  pub default_ttl : Duration
  pub lock_timeout : Option Duration
  pub stale_while_revalidate : Option Duration
  pub enable_purge : Bool

pub record RateLimitConf : Type 0 where
  pub requests_per_sec : ℕ
  pub burst : ℕ
  pub key : RateLimitKey

pub record RouteConf : Type 0 where
  pub path : String
  pub path_type : PathType
  pub upstream_id : String
  pub hostnames : Option (List String)
  pub rate_limit : Option RateLimitConf
  pub auth : Option AuthConf
  pub headers : HeaderConf
  pub access_control : Option AccessControlConf
  pub query_matches : Option (Dict String String)
  pub strip_query_params : Option (List String)
  pub compression : Bool
  pub body_deny_patterns : Option (List String)
  pub websocket : Bool
  pub proxy_connect : Bool
  pub inflight_limit : Option ℕ
  pub error_pages : Option (Dict ℕ String)
  pub cache : Option CacheConf

-- `RouteConf::default`
abbrev pub default_route : RouteConf
default_route = record {
  path = "";
  path_type = prefix;
  upstream_id = "";
  hostnames = none;
  rate_limit = none;
  auth = none;
  headers = default_headers;
  access_control = none;
  query_matches = none;
  strip_query_params = none;
  compression = false;
  body_deny_patterns = none;
  websocket = false;
  proxy_connect = false;
  inflight_limit = none;
  error_pages = none;
  cache = none;
}
