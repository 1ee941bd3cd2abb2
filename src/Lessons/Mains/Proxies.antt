-- ===== src/Lessons/Mains/Proxies.antt =====
-- examples/: what the `main` functions of lessons 00 to 25, services and proxies to one peer, do in the end.
use pingora_guide.Base.{List, [], ◌∷◌, All, arith}
use pingora_guide.Lessons.Mains.Server.{Outside, Main}
use pingora_guide.Lessons.Mains.Protocol.{Concludes, initial}
use pingora_guide.Lessons.EchoServer
use pingora_guide.Lessons.Services.Configuration
use pingora_guide.Lessons.Services.DaemonMode
use pingora_guide.Lessons.GracefulShutdown
use pingora_guide.Lessons.Services.ThreadingModel
use pingora_guide.Lessons.Services.VisitorCounter
use pingora_guide.Lessons.Peers.SimpleForward
use pingora_guide.Lessons.Peers.TlsTermination
use pingora_guide.Lessons.Peers.HeaderManipulation
use pingora_guide.Lessons.PathRouting
use pingora_guide.Lessons.QueryParams
use pingora_guide.Lessons.Peers.ResponseModification
use pingora_guide.Lessons.BodyInspection
use pingora_guide.Lessons.Peers.CustomErrors
use pingora_guide.Lessons.Peers.Http2Support
use pingora_guide.Lessons.Peers.H2cSupport
use pingora_guide.Lessons.Peers.StaticPeer
use pingora_guide.Lessons.Peers.DnsPeer
use pingora_guide.Lessons.Peers.UdsPeer
use pingora_guide.Lessons.Peers.PeerOptions
use pingora_guide.Lessons.Peers.SniRouting
use pingora_guide.Lessons.Peers.MutualTls
use pingora_guide.Lessons.Peers.ProxyConnect
use pingora_guide.Lessons.Peers.WebsocketUpgrade
use pingora_guide.Lessons.Peers.GrpcProxy
use pingora_guide.Lessons.Peers.ConnectionReuse

abbrev lessons : List ((O : Outside) → Main O (Unit {0}))
lessons =
    EchoServer.main ∷ Configuration.main ∷ DaemonMode.main ∷ GracefulShutdown.main
    ∷ ThreadingModel.main ∷ VisitorCounter.main ∷ SimpleForward.main ∷ TlsTermination.main
    ∷ HeaderManipulation.main ∷ PathRouting.main ∷ QueryParams.main ∷ ResponseModification.main
    ∷ BodyInspection.main ∷ CustomErrors.main ∷ Http2Support.main ∷ H2cSupport.main
    ∷ StaticPeer.main ∷ DnsPeer.main ∷ UdsPeer.main ∷ PeerOptions.main ∷ SniRouting.main
    ∷ MutualTls.main ∷ ProxyConnect.main ∷ WebsocketUpgrade.main ∷ GrpcProxy.main
    ∷ ConnectionReuse.main ∷ []

lessons-Concludes : (O : Outside) → All (λ l. Concludes O (l O) initial) lessons
unfolding Concludes EchoServer.main Configuration.main DaemonMode.main GracefulShutdown.main
    ThreadingModel.main VisitorCounter.main SimpleForward.main TlsTermination.main
    HeaderManipulation.main PathRouting.main QueryParams.main ResponseModification.main
    BodyInspection.main CustomErrors.main Http2Support.main H2cSupport.main StaticPeer.main
    DnsPeer.main UdsPeer.main PeerOptions.main SniRouting.main MutualTls.main ProxyConnect.main
    WebsocketUpgrade.main GrpcProxy.main ConnectionReuse.main
lessons-Concludes O = (
  (ground arith, ground arith),
  (
    (ground arith, ground arith),
    (
      (ground arith, ground arith),
      (
        (ground arith, ground arith),
        (
          (ground arith, ground arith),
          (
            (ground arith, ground arith),
            (
              (ground arith, ground arith),
              (
                (ground arith, ground arith),
                (
                  (ground arith, ground arith),
                  (
                    (ground arith, ground arith),
                    (
                      (ground arith, ground arith),
                      (
                        (ground arith, ground arith),
                        (
                          (ground arith, ground arith),
                          (
                            (ground arith, ground arith),
                            (
                              (ground arith, ground arith),
                              (
                                (ground arith, ground arith),
                                (
                                  (ground arith, ground arith),
                                  (
                                    (ground arith, ground arith),
                                    (
                                      (ground arith, ground arith),
                                      (
                                        (ground arith, ground arith),
                                        (
                                          (ground arith, ground arith),
                                          (
                                            (ground arith, ground arith),
                                            (
                                              (ground arith, ground arith),
                                              (
                                                (ground arith, ground arith),
                                                (
                                                  (ground arith, ground arith),
                                                  ((ground arith, ground arith), tt),
                                                ),
                                              ),
                                            ),
                                          ),
                                        ),
                                      ),
                                    ),
                                  ),
                                ),
                              ),
                            ),
                          ),
                        ),
                      ),
                    ),
                  ),
                ),
              ),
            ),
          ),
        ),
      ),
    ),
  ),
)
