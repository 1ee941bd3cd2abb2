-- ===== src/Lessons/Mains/Observed.antt =====
-- examples/: what the `main` functions of lessons 43 to 48, caches and metrics, do in the end.
use pingora_guide.Base.{List, [], ◌∷◌, All, arith}
use pingora_guide.Lessons.Mains.Server.{Outside, Main}
use pingora_guide.Lessons.Mains.Protocol.{Concludes, initial}
use pingora_guide.Lessons.Caching.MemoryCache
use pingora_guide.Lessons.Caching.CacheControl
use pingora_guide.Lessons.Caching.CacheLock
use pingora_guide.Lessons.Caching.CachePurge
use pingora_guide.Lessons.Caching.StaleWhileRevalidate
use pingora_guide.Lessons.Services.Observability

abbrev lessons : List ((O : Outside) → Main O (Unit {0}))
lessons =
    MemoryCache.main ∷ CacheControl.main ∷ CacheLock.main ∷ CachePurge.main
    ∷ StaleWhileRevalidate.main ∷ Observability.main ∷ []

lessons-Concludes : (O : Outside) → All (λ l. Concludes O (l O) initial) lessons
unfolding Concludes MemoryCache.main CacheControl.main CacheLock.main CachePurge.main
    StaleWhileRevalidate.main Observability.main
lessons-Concludes O = (
  (ground arith, ground arith),
  (
    (ground arith, ground arith),
    (
      (ground arith, ground arith),
      (
        (ground arith, ground arith),
        ((ground arith, ground arith), ((ground arith, ground arith), tt)),
      ),
    ),
  ),
)
