-- ===== src/Upstreams/Factory/Discovery.antt =====
-- src/upstreams/factory.rs: the backends of a cluster, from DNS, a file or the configuration. The
-- state of the code here is the count of calls that are answered from outside.
use pingora_guide.Base.{
  ℕ, ◌+◌, String, Bool, List, [], ◌∷◌, Outcome, ok, Act, pure, ◌>>=◌, lift, any, if◌then◌else◌,
}
use pingora_guide.Config.{BackendConf, FileFormat, json, yaml}
use pingora_guide.Error.{custom, internal_error}
use pingora_guide.Pingora.{Pingora}

pub record DnsDiscovery : Type 0 where
  pub hostname : String

pub record FileDiscovery : Type 0 where
  pub path : String
  pub format : FileFormat

module _ (P : Pingora) where
  open P use {Error, InetAddr, Backend, backend, explain}

  abbrev pub Setup : Type 0 → Type 0
  Setup = Act ℕ Error

  abbrev pub draw : Setup ℕ
  draw n = (ok n, n + 1)

  -- `BTreeSet::insert`: a backend that is there already stays. The order is not modelled.
  unfoldable pub insert : Backend → List Backend → List Backend
  insert b bs = if any (P.same_backend b) bs then bs else b ∷ bs

  unfoldable pub insert_all : ℕ → List InetAddr → List Backend → List Backend
  insert_all weight [] upstreams = upstreams
  insert_all weight (addr ∷ addrs) upstreams =
      insert_all weight addrs (insert (backend addr weight) upstreams)

  -- `Error::explain(InternalError, e.to_string())`
  abbrev pub internal : String → Error
  internal = explain internal_error

  -- The loop over configured backends, in `FileDiscovery::discover` and `make_lb_instance`.
  unfoldable pub resolve : List BackendConf → List Backend → Setup (List Backend)
  resolve [] upstreams = pure upstreams
  resolve (conf ∷ confs) upstreams = do
    call ← draw
    addrs ← lift internal (P.to_socket_addrs call conf.address)
    resolve confs (insert_all conf.weight addrs upstreams)

  -- What `discover` returns: the backends and the map of those that are enabled or not, which both
  -- implementations leave empty.
  abbrev pub Found : Type 0
  Found = List Backend × List (ℕ × Bool)

  -- `DnsDiscovery::discover`
  unfoldable pub discover_dns : DnsDiscovery → Setup Found
  discover_dns self = do
    call ← draw
    addrs ←
        lift (λ e. P.new_error (custom "DNSResolutionFailed")) (P.lookup_host call self.hostname)
    pure (insert_all 1 addrs [], [])

  unfoldable pub parse_backends : FileFormat → String → Outcome String (List BackendConf)
  parse_backends yaml content = P.yaml_backends content
  parse_backends json content = P.json_backends content

  -- `FileDiscovery::discover`
  unfoldable pub discover_file : FileDiscovery → Setup Found
  discover_file self = do
    call ← draw
    content ← lift internal (P.read_to_string call self.path)
    backend_confs ← lift internal (parse_backends self.format content)
    upstreams ← resolve backend_confs []
    pure (upstreams, [])
