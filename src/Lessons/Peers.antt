-- ===== src/Lessons/Peers.antt =====
-- Lessons about the peer of a request and its headers.
pub mod SimpleForward
pub mod TlsTermination
pub mod HeaderManipulation
pub mod ResponseModification
pub mod Http2Support
pub mod H2cSupport
pub mod GrpcProxy
pub mod StaticPeer
pub mod DnsPeer
pub mod UdsPeer
pub mod PeerOptions
pub mod SniRouting
pub mod MutualTls
pub mod ConnectionReuse
pub mod CustomErrors
pub mod ProxyConnect
pub mod WebsocketUpgrade
