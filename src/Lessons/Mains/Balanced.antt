-- ===== src/Lessons/Mains/Balanced.antt =====
-- examples/: what the `main` functions of lessons 26 to 42, proxies over balancers, do in the end.
use pingora_guide.Base.{List, [], ◌∷◌, All, arith}
use pingora_guide.Lessons.Mains.Server.{Outside, Main}
use pingora_guide.Lessons.Mains.Protocol.{Concludes, initial}
use pingora_guide.Lessons.Balancing.RoundRobin
use pingora_guide.Lessons.Balancing.WeightedLb
use pingora_guide.Lessons.Balancing.ConsistentHashing
use pingora_guide.Lessons.StickySessions
use pingora_guide.Lessons.Balancing.HealthCheckTcp
use pingora_guide.Lessons.Balancing.HealthCheckHttp
use pingora_guide.Lessons.Balancing.CustomHealthCheck
use pingora_guide.Lessons.Balancing.ActivePassive
use pingora_guide.Lessons.Balancing.FileDiscovery
use pingora_guide.Lessons.DynamicReconfiguration
use pingora_guide.Lessons.Limits.RateLimit
use pingora_guide.Lessons.Limits.SlidingWindow
use pingora_guide.Lessons.InflightLimit
use pingora_guide.Lessons.Limits.ConnectionFilter
use pingora_guide.Lessons.Limits.RequestSizeLimit
use pingora_guide.Lessons.Limits.AuthRequest
use pingora_guide.Lessons.Limits.BasicAuth

abbrev lessons : List ((O : Outside) → Main O (Unit {0}))
lessons =
    RoundRobin.main ∷ WeightedLb.main ∷ ConsistentHashing.main ∷ StickySessions.main
    ∷ HealthCheckTcp.main ∷ HealthCheckHttp.main ∷ CustomHealthCheck.main ∷ ActivePassive.main
    ∷ FileDiscovery.main ∷ DynamicReconfiguration.main ∷ RateLimit.main ∷ SlidingWindow.main
    ∷ InflightLimit.main ∷ ConnectionFilter.main ∷ RequestSizeLimit.main ∷ AuthRequest.main
    ∷ BasicAuth.main ∷ []

lessons-Concludes : (O : Outside) → All (λ l. Concludes O (l O) initial) lessons
unfolding Concludes RoundRobin.main WeightedLb.main ConsistentHashing.main StickySessions.main
    HealthCheckTcp.main HealthCheckHttp.main CustomHealthCheck.main ActivePassive.main
    FileDiscovery.main DynamicReconfiguration.main RateLimit.main SlidingWindow.main
    InflightLimit.main ConnectionFilter.main RequestSizeLimit.main AuthRequest.main BasicAuth.main
lessons-Concludes O = (
  (ground arith, ground arith),
  (
    (ground arith, ground arith),
    (
      (ground arith, ground arith),
      (
        (ground arith, ground arith),
        (
          (ground arith, ground arith),
          (
            (ground arith, ground arith),
            (
              (ground arith, ground arith),
              (
                (ground arith, ground arith),
                (
                  (ground arith, ground arith),
                  (
                    (ground arith, ground arith),
                    (
                      (ground arith, ground arith),
                      (
                        (ground arith, ground arith),
                        (
                          (ground arith, ground arith),
                          (
                            (ground arith, ground arith),
                            (
                              (ground arith, ground arith),
                              ((ground arith, ground arith), ((ground arith, ground arith), tt)),
                            ),
                          ),
                        ),
                      ),
                    ),
                  ),
                ),
              ),
            ),
          ),
        ),
      ),
    ),
  ),
)
