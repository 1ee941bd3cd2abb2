-- ===== src/Lessons/Caching/Calls.antt =====
-- The calls of `pingora-cache`, as the lessons use them.
use pingora_guide.Base.{ℕ, String, Bool, Option, ok}
use pingora_guide.Config.{Duration}
use pingora_guide.Pingora.{Pingora}
use pingora_guide.Lessons.Shared.{Call}

-- `CacheMetaDefaults`: what holds for an answer without a policy of its own; times in seconds, but for
-- the duration that an answer of a status is fresh.
pub record CacheMetaDefaults : Type 0 where
  pub fresh : ℕ → Option Duration
  pub stale_while_revalidate : ℕ
  pub stale_if_error : ℕ

-- The phases that the code names; `other` is any other one.
pub data CachePhase : Type 0 where
  hit miss stale stale_updating other : CachePhase

pub record CacheCalls (P : Pingora) : Type 1 where
  pub CacheControl : Type 0
  pub RespCacheable : Type 0
  pub new_key : String → String → String → P.CacheKey
  -- `cache.enable` with the cache in memory and, if so, the lock
  pub enable : Bool → P.Session → P.Session
  pub set_cache_key : P.CacheKey → P.Session → P.Session
  pub from_resp_headers : P.Header → Option CacheControl
  pub resp_cacheable : Option CacheControl → P.Header → Bool → CacheMetaDefaults → RespCacheable

-- The filter that all lessons of the cache have: the key is the path.
abbrev pub enable_for_path :
    (P : Pingora) → CacheCalls P → Bool → {G C : Type 0} → Call P G C (Unit {0})
enable_for_path P K lock x =
    let key = K.new_key "" (P.uri_path x.session) "" in
    (ok tt, record x { session = K.set_cache_key key (K.enable lock x.session) })
