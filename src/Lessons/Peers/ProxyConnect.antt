-- ===== src/Lessons/Peers/ProxyConnect.antt =====
-- examples/22_proxy_connect.rs: a tunnel through another proxy, and that proxy.
pub mod Opened
use pingora_guide.Base.{
  ℕ, String, Bool, true, not, Option, List, [], ◌∷◌, Outcome, ok, err, panic, Act, pure, throw,
  expect, map_err, ◌>>=◌, ◌>>◌, if◌then◌else◌, string_eq, nat_eq,
}
use pingora_guide.Base.Text.{◌<>◌}
use pingora_guide.Base.Text.Search.{contains, lines}
use pingora_guide.Error.{connect_error, write_error, read_error, connect_proxy_failure}
use pingora_guide.Pingora.{Pingora}
use pingora_guide.Lessons.Shared.Tcp.{Tcp}
use pingora_guide.Lessons.Shared.{TunedPeer, untuned, Call, Edit, on_header}
use pingora_guide.Base.{none, false, ◌≡◌, ◌↔◌, refl, arith, Bool-cases, inl, inr}
use pingora_guide.Lessons.Mains.Server.{
  Main, Outside, new_server, bootstrap, add_service, run_forever, spawn, http_proxy, tcp,
}
use pingora_guide.Base.{map, some, ◌&&◌}
use pingora_guide.Lessons.Shared.Mock.{accepted, bound}
use pingora_guide.Base.Text.{starts_with}
use pingora_guide.Base.Text.Search.{is_empty}

pub record ProxyTunnelConnector (InetAddr : Type 0) : Type 0 where
  pub proxy_addr : InetAddr
  pub remote_host : String
  pub remote_port : ℕ

module _ (P : Pingora) where
  module _ (T : Tcp P.InetAddr) where
    unfoldable pub connect_req : ProxyTunnelConnector P.InetAddr → String
    connect_req self =
        let remote = self.remote_host <> ":" <> P.usize_to_string self.remote_port in
        "CONNECT " <> remote <> " HTTP/1.1\r\nHost: " <> remote <> "\r\n\r\n"

    unfoldable pub first_line : List String → String
    first_line [] = "Unknown"
    first_line (line ∷ rest) = line

    -- The dialogue on the socket that is connected to the proxy.
    unfoldable pub tunnel : ProxyTunnelConnector P.InetAddr → Act T.Socket P.Error (Unit {0})
    tunnel self = do
      map_err (λ e. P.explain write_error ("Failed to write CONNECT req: " <> e))
          (T.write_all (connect_req self))
      response ←
          map_err (λ e. P.explain read_error ("Failed to read proxy resp: " <> e)) (T.read 4096)
      if not (contains response " 200 ")
          then throw (
              P.explain connect_proxy_failure
                ("Proxy refused tunnel: " <> first_line (lines response)))
          else pure tt

    unfoldable pub connect : ProxyTunnelConnector P.InetAddr → ℕ → Outcome P.Error T.Socket
    connect self call = elim (T.connect call self.proxy_addr) [
      | ok socket ↦
          let (r, s) = tunnel self socket in
          elim r [ ok _ ↦ ok s | err e ↦ err e | panic message ↦ panic message ]
      | err e ↦ err (P.explain connect_error ("Failed to connect to proxy: " <> e))
      | panic message ↦ panic message
    ]

  -- `HttpPeer::new` for an address that is resolved already, and `SocketAddr`'s `FromStr`
  module _ (peer_at : P.InetAddr → Bool → String → P.HttpPeer)
      (parse_addr : String → Option P.InetAddr) where
    -- The peer with its connector.
    unfoldable pub upstream_peer :
        Call P (Unit {0}) (Unit {0}) (TunedPeer P × ProxyTunnelConnector P.InetAddr)
    upstream_peer = do
      proxy_socket_addr ←
          expect (parse_addr "127.0.0.1:3128") "called `Result::unwrap()` on an `Err` value"
      pure (
        untuned P (peer_at proxy_socket_addr true "advanced.pingora.local"),
        record {
          proxy_addr = proxy_socket_addr;
          remote_host = "advanced.pingora.local";
          remote_port = 443;
        },
      )

  unfoldable pub upstream_request_filter : Edit P (Unit {0}) (Unit {0}) (Unit {0})
  upstream_request_filter = on_header P (P.insert_header "Host" "advanced.pingora.local")

-- The mock proxy on one connection, from what it reads and from whether it reaches its upstream: what
-- it writes before it passes the bytes on.
unfoldable pub forward : Bool → String → Option String
forward reached req =
    if is_empty req
    then none
    else if starts_with req "CONNECT" && reached
    then some "HTTP/1.1 200 Connection Established\r\n\r\n"
    else none

unfoldable pub run_mock_forward_proxy :
    Outcome String (Unit {0}) → Bool → List (Option String) → Outcome String (List (Option String))
run_mock_forward_proxy listener reached connections =
    bound "Failed to bind Mock Proxy" listener (map (forward reached) (accepted connections))

-- `main`
unfoldable pub main : (O : Outside) → Main O (Unit {0})
main O = do
  new_server O
  bootstrap O
  spawn O "run_mock_forward_proxy"
  add_service O (http_proxy none (tcp "0.0.0.0:6166" ∷ []))
  run_forever O
