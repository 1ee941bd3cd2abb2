-- ===== src/Pingora.antt =====
-- What the gateway calls of `pingora`, `http`, `ipnet`, `regex`, `matchit`, `uuid` and `tokio`:
-- a parameter of the model. A call whose answer is not fixed by its arguments (a random id, a load
-- balancer's choice, a file's content, a name's addresses) takes the number of the call.
use pingora_guide.Base.{ℕ, String, Bool, Option, List, Outcome}
use pingora_guide.Config.{BackendConf, Duration}
use pingora_guide.Error.{ErrorType, GatewayError}

-- What `timeout(…, command.output())` gives: an exit that succeeded or not, a command that did not
-- run, or no exit in time.
pub data CommandRun : Type 0 where
  exited : Bool → CommandRun
  not_run : String → CommandRun
  timed_out : CommandRun

pub record Pingora : Type 1 where
  -- pingora::Error, and the text that `GatewayError::to_string` gives
  pub Error : Type 0
  pub explain : ErrorType → String → Error
  pub etype : Error → ErrorType
  pub error_text : Error → String
  pub to_string : GatewayError → String
  -- addresses: pingora's SocketAddr, std's SocketAddr and IpAddr, ipnet's IpNet
  pub SocketAddr : Type 0
  pub InetAddr : Type 0
  pub IpAddr : Type 0
  pub IpNet : Type 0
  pub as_inet : SocketAddr → Option InetAddr
  pub ip : InetAddr → IpAddr
  pub ip_to_string : IpAddr → String
  pub net_from_str : String → Outcome String IpNet
  pub net_contains : IpNet → IpAddr → Bool
  -- the request, and what is written to the client
  pub Session : Type 0
  pub HeaderValue : Type 0
  pub to_str : HeaderValue → Option String
  pub parse_usize : String → Option ℕ
  pub uri_path : Session → String
  pub uri_host : Session → Option String
  pub method : Session → String
  pub header : Session → String → Option HeaderValue
  pub client_addr : Session → Option SocketAddr
  pub response_written : Session → Option String
  pub respond_error : ℕ → Session → Outcome Error (Unit {0}) × Session
  -- the bodies that pass through
  pub Bytes : Type 0
  pub bytes_len : Bytes → ℕ
  -- the headers of a request or a response that the gateway edits
  pub Header : Type 0
  pub build : ℕ → Header
  pub insert_header : String → String → Header → Outcome Error (Unit {0}) × Header
  pub remove_header : String → Header → Header
  pub write_response_header : Header → Bool → Session → Outcome Error (Unit {0}) × Session
  pub write_response_body : Bytes → Bool → Session → Outcome Error (Unit {0}) × Session
  pub usize_to_string : ℕ → String
  pub read_file : ℕ → String → Outcome String Bytes
  -- values that the context may hold
  pub Guard : Type 0
  pub CacheKey : Type 0
  pub CachePhase : Type 0
  pub new_uuid : ℕ → String
  -- peers, certificates, balanced backends
  pub HttpPeer : Type 0
  pub CertKey : Type 0
  pub LoadBalancer : Type 0
  pub Digest : Type 0
  pub Backend : Type 0
  pub new_peer : Backend → Bool → String → HttpPeer
  pub new_static_peer : ℕ → String × ℕ → Bool → String → Outcome Error HttpPeer
  pub new_uds : String → Bool → String → Outcome Error HttpPeer
  pub address : HttpPeer → SocketAddr
  pub client_cert_key : HttpPeer → Option CertKey
  pub backend : InetAddr → ℕ → Backend
  pub backend_addr : Backend → SocketAddr
  pub same_backend : Backend → Backend → Bool
  pub select : ℕ → LoadBalancer → String → ℕ → Option Backend
  -- discovery, health checks
  pub new_error : ErrorType → Error
  pub lookup_host : ℕ → String → Outcome String (List InetAddr)
  pub to_socket_addrs : ℕ → String → Outcome String (List InetAddr)
  pub read_to_string : ℕ → String → Outcome String String
  pub yaml_backends : String → Outcome String (List BackendConf)
  pub json_backends : String → Outcome String (List BackendConf)
  pub run_command : ℕ → String → Duration → Backend → CommandRun
  pub is_uri : String → Bool
  -- path matching
  pub Regex : Type 0
  pub regex_new : String → Outcome String Regex
  pub is_match : Regex → String → Bool
  pub Matchit : Type 0
  pub matchit_new : Matchit
  pub matchit_insert : String → ℕ → Matchit → Outcome String Matchit
  pub matchit_at : Matchit → String → Option ℕ
