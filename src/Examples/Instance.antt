-- ===== src/Examples/Instance.antt =====
-- Concrete functions in the place of the third-party libraries, for the runs of the model.
use pingora_guide.Base.{
  ℕ, ◌≡◌, refl, sym, ◌∙◌, ap, String, true, Option, none, some, List, [], ◌∷◌, ◌++◌, arith, Outcome,
  ok, err, ◌==◌, string_eq, nat_eq, inl, inr, if◌then◌else◌, Bool-cases,
}
use text.Mathlib.TextEquality.{eq_iff}
use pingora_guide.Base.Dict
use pingora_guide.Base.Dict.{Dict, lookup-nil, lookup-insert, lookup-remove}
use pingora_guide.Error.{ErrorType}
use pingora_guide.Pingora.{Pingora, exited}
use pingora_guide.Context
use pingora_guide.Request.{World}
use pingora_guide.Router.Build.{Built, empty, inserted}
use pingora_guide.Router.Dispatch.{MatchitLaws, In}
use pingora_guide.Gateway.Connections.Laws.{HeaderLaws}

pub record Request : Type 0 where
  pub path : String
  pub host : Option String
  pub headers : Dict String String
  pub client : Option String
  pub sent : List ℕ

-- The three lengths that the runs declare.
abbrev pub parse_usize : String → Option ℕ
parse_usize s =
    if s == "5" then some 5 else if s == "10" then some 10 else if s == "11" then some 11 else none

abbrev pub add_header :
    String
    → String
    → Dict String String
    → Outcome (ErrorType × String) (Unit {0}) × Dict String String
add_header key v h = (ok tt, Dict.insert key v h)

abbrev pub sample : Pingora
sample = record {
  Error = ErrorType × String;
  explain = λ t text. (t, text);
  etype = λ e. e.0;
  error_text = λ e. e.1;
  to_string = λ e. "gateway error";
  SocketAddr = String;
  InetAddr = String;
  IpAddr = String;
  IpNet = String;
  as_inet = λ a. if a == "/tmp/socket" then none else some a;
  ip = λ a. a;
  ip_to_string = λ a. a;
  net_from_str = λ s. if s == "bad" then err "invalid" else ok s;
  net_contains = λ net addr. net == addr;
  Session = Request;
  HeaderValue = String;
  to_str = λ v. some v;
  parse_usize = parse_usize;
  uri_path = λ s. s.path;
  uri_host = λ s. s.host;
  method = λ s. "GET";
  header = λ s name. Dict.lookup name s.headers;
  client_addr = λ s. s.client;
  response_written = λ s. none;
  respond_error = λ code s. (ok tt, record s { sent = s.sent ++ (code ∷ []) });
  Bytes = ℕ;
  bytes_len = λ b. b;
  Header = Dict String String;
  build = λ code. [];
  insert_header = add_header;
  remove_header = Dict.remove;
  write_response_header = λ h last s. (ok tt, record s { sent = s.sent ++ (200 ∷ []) });
  write_response_body = λ b last s. (ok tt, record s { sent = s.sent ++ (b ∷ []) });
  usize_to_string = λ n. "7";
  read_file = λ call path. if path == "502.html" then ok 7 else err "no such file";
  Guard = ℕ;
  CacheKey = String;
  CachePhase = ℕ;
  new_uuid = λ call. if call == 0 then "id-0" else "id-n";
  HttpPeer = String;
  CertKey = String;
  LoadBalancer = List String;
  Digest = String;
  Backend = String;
  new_peer = λ b tls sni. b;
  new_static_peer = λ call a tls sni. ok (a.0);
  new_uds = λ path tls sni. ok path;
  address = λ p. p;
  client_cert_key = λ p. none;
  backend = λ a weight. a;
  backend_addr = λ b. b;
  same_backend = λ a b. a == b;
  select = λ call lb key tries. elim lb [ [] ↦ none | b ∷ _ ↦ some b ];
  new_error = λ t. (t, "");
  lookup_host = λ call s. ok (s ∷ []);
  to_socket_addrs = λ call s. ok (s ∷ []);
  read_to_string = λ call s. ok s;
  yaml_backends = λ s. ok (
      record { address = "10.1.0.1"; weight = 2 }
      ∷ record { address = "10.1.0.2"; weight = 1 }
      ∷ []);
  json_backends = λ s. ok [];
  run_command = λ call command limit b. exited true;
  is_uri = λ s. true;
  Regex = String;
  regex_new = λ s. if s == "(" then err "unclosed group" else ok s;
  is_match = λ re path. re == path;
  Matchit = Dict String ℕ;
  matchit_new = [];
  matchit_insert = λ path id m. ok (Dict.insert path id m);
  matchit_at = λ m path. Dict.lookup path m;
}

abbrev pub request : String → Request
request path = record {
  path = path;
  host = none;
  headers = [];
  client = some "10.0.0.1";
  sent = [];
}

abbrev pub world : Request → Context.GatewayContext sample → World sample
world s c = record { session = s; ctx = c; now = 9; calls = 0; samples = [] }

abbrev pub header_laws : HeaderLaws sample
header_laws = record {
  same = λ a b. a == b;
  value = λ h n. Dict.lookup n h;
  value-insert =
      λ key v {h} done n. ap (λ x. Dict.lookup n x.1) (sym done) ∙ lookup-insert n key v h;
  value-remove = λ key n h. lookup-remove n key h;
}

at_lem :
    {m : Dict String ℕ} {rs : List (String × ℕ)} (path : String) {id : ℕ}
    → Built sample m rs
    → Dict.lookup path m ≡ some id
    → In (path, id) rs
at_lem path empty found = absurd (ground (arith, lookup-nil {V = ℕ} path))
at_lem path {id} (inserted {m} {rs} {path = p} {id = k} b done) found =
    elim (Bool-cases (p == path)) [
      | inl equal ↦ inl (ground (arith, lookup-insert path p k m, eq_iff p path))
      | inr other ↦ inr (at_lem path b (ground (arith, lookup-insert path p k m)))
    ]

pub matchit_laws : MatchitLaws sample
matchit_laws = record {
  matches = λ a b. a == b;
  at_sound = λ path b found. (path, at_lem path b found, (eq_iff path path).1 refl);
}
