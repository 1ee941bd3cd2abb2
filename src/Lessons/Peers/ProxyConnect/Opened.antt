-- ===== src/Lessons/Peers/ProxyConnect/Opened.antt =====
-- examples/22_proxy_connect.rs: when the connector opens a tunnel.
use pingora_guide.Base.{
  ℕ, ◌≡◌, ◌↔◌, String, true, ok, arith, outcome-cases, made-cases, Bool-cases, inl, inr, ap, ◌∙◌,
}
use pingora_guide.Base.Text.{◌<>◌}
use pingora_guide.Base.Text.Search.{contains}
use pingora_guide.Pingora.{Pingora}
use pingora_guide.Lessons.Shared.Tcp.{Tcp}
use pingora_guide.Lessons.Peers.ProxyConnect.{ProxyTunnelConnector, connect_req, tunnel, connect}

module _ (P : Pingora) (T : Tcp P.InetAddr) where
  -- The text that asks a proxy for a tunnel to a host and a port.
  abbrev pub request_to : String → String → String
  request_to host port =
      "CONNECT "
      <> ((host <> ":" <> port) <> (" HTTP/1.1\r\nHost: " <> ((host <> ":" <> port) <> "\r\n\r\n")))

  -- The dialogue with a proxy that opens the tunnel; the socket is left behind its one answer.
  pub record Opened (self : ProxyTunnelConnector P.InetAddr) (call : ℕ) (socket : T.Socket)
      : Type 0 where
    pub stream : T.Socket
    pub reached : T.connect call self.proxy_addr ≡ ok stream
    pub asked : T.Socket
    pub written :
        T.write_all (request_to self.remote_host (P.usize_to_string self.remote_port)) stream
        ≡ (ok tt, asked)
    pub text : String
    pub answered : T.read 4096 asked ≡ (ok text, socket)
    pub accepted : contains text " 200 " ≡ true

  tunnel-passes :
      (self : ProxyTunnelConnector P.InetAddr) (stream : T.Socket)
      → (tunnel P T self stream).0 ≡ ok tt
      → (asked : T.Socket) × (text : String) × (T.write_all (connect_req P T self) stream
          ≡ (ok tt, asked))
        × (T.read 4096 asked ≡ (ok text, (tunnel P T self stream).1))
        × (contains text " 200 " ≡ true)
  unfolding tunnel
  tunnel-passes self stream passed = elim (made-cases (T.write_all (connect_req P T self) stream)) [
    | inr failed ↦ absurd (ground arith)
    | inl ((_, asked), written) ↦ elim (made-cases (T.read 4096 asked)) [
      | inr failed ↦ absurd (ground arith)
      | inl ((text, read), answered) ↦ elim (Bool-cases (contains text " 200 ")) [
        | inr absent ↦ absurd (ground arith)
        | inl there ↦ (asked, text, written, ground (arith, written, answered, there), there)
      ]
    ]
  ]

  tunnel_opens :
      (self : ProxyTunnelConnector P.InetAddr) {stream asked socket : T.Socket} {text : String}
      → T.write_all (connect_req P T self) stream ≡ (ok tt, asked)
      → T.read 4096 asked ≡ (ok text, socket)
      → contains text " 200 " ≡ true
      → tunnel P T self stream ≡ (ok tt, socket)
  unfolding tunnel
  tunnel_opens self written answered there = ground (arith, written, answered, there)

  connect_opens :
      (self : ProxyTunnelConnector P.InetAddr) (call : ℕ) {stream socket : T.Socket}
      → T.connect call self.proxy_addr ≡ ok stream
      → tunnel P T self stream ≡ (ok tt, socket)
      → connect P T self call ≡ ok socket
  unfolding connect
  connect_opens self call reached opens = ground (arith, reached, opens)

  connect-tunnel :
      (self : ProxyTunnelConnector P.InetAddr) (call : ℕ) {stream socket : T.Socket}
      → T.connect call self.proxy_addr ≡ ok stream
      → connect P T self call ≡ ok socket
      → tunnel P T self stream ≡ (ok tt, socket)
  unfolding connect
  connect-tunnel self call {stream} reached opened = elim (made-cases (tunnel P T self stream)) [
    | inr failed ↦ absurd (ground (arith, reached, opened))
    | inl ((_, s), made) ↦ ground (arith, reached, opened, made)
  ]

  -- The connector returns a socket exactly if it is connected to its proxy, the proxy takes the request
  -- for the remote host and port, and answers, within 4096 bytes, with a text that contains ` 200 `; the
  -- socket is then the one on which that answer was read.
  pub connect-Opened :
      (self : ProxyTunnelConnector P.InetAddr) (call : ℕ) (socket : T.Socket)
      → connect P T self call ≡ ok socket ↔ Opened self call socket
  unfolding connect connect_req
  connect-Opened self call socket = (
    λ opened. elim (outcome-cases (T.connect call self.proxy_addr)) [
      | inr (inl (e, failed)) ↦ absurd (ground arith)
      | inr (inr (m, stopped)) ↦ absurd (ground arith)
      | inl (stream, reached) ↦
          let run = connect-tunnel self call reached opened in
          let (asked, text, written, answered, there) =
            tunnel-passes self stream (ap (λ x. x.0) run) in
          record {
            stream = stream;
            reached = reached;
            asked = asked;
            written = written;
            text = text;
            answered = answered ∙ ap (λ x. (ok text, x.1)) run;
            accepted = there;
          }
    ],
    λ h. connect_opens self call h.reached (tunnel_opens self h.written h.answered h.accepted),
  )
