-- ===== src/Lib.antt =====
-- The Pingora gateway: a reverse proxy over the `pingora` framework. `src/main.rs` reads a
-- configuration (`src/config.rs`), makes the upstreams (`src/upstreams/factory.rs`) and the
-- router (`src/upstreams/router.rs`), and puts them with three middlewares (`src/middlewares/`)
-- into a `Gateway` (`src/gateway.rs`), whose handlers the framework calls in the phases of a
-- request. They share a type-erased map per request (`src/context.rs`).
--
-- Base: helpers; Base/Outcomes is the monad of fallible code that writes state, with panics as
--   values, Base/Dict the hash maps, Base/Text the operations on strings, with laws in
--   Base/Text/Laws and Base/Text/Search.
-- Pingora: the third-party code that the gateway calls, as a record of types and functions which
--   every definition takes. What a proof relies on of it are named records: `MatchitLaws`
--   (Router/Dispatch) and `HeaderLaws` (Gateway/Connections/Laws); Examples/Instance gives
--   functions for which they hold.
-- Config: src/config.rs, with `option_humantime` in Config/Humantime. Error: src/error.rs.
-- Router: src/upstreams/router.rs; Router/Defs is the code, Router/Build says what `Router::new`
--   makes, Router/Rejects what it refuses, Router/Dispatch compares `match_request` with a search
--   over the configuration.
-- Context: src/context.rs; `TypeId` enumerates the types that the crate stores, Context/Boxes
--   holds the boxed values, Context/Store the methods, Context/Laws their
--   laws, Context/Refinement sequences of calls and what they are to answer.
-- Request: the state that the handlers of one request share: session, context, clock, metrics.
-- Upstream and Upstreams: src/upstream.rs and src/upstreams/: `StaticUpstream`,
--   `LoadBalancerCluster` and the factory, whose `LoadBalancer` under construction is a `LbPlan`.
-- Middleware and Middlewares: src/middleware.rs and src/middlewares/.
-- Gateway: src/gateway.rs; Chain has the loops over the middlewares, Requests, Connections,
--   Responses and Failures the handlers, their Laws what they do.
-- Startup: src/main.rs; Startup/Assembly has the parts of the assembled server, Startup/Complete is
--   about its upstreams, Startup/Serving about its services, Startup/Unused about settings that
--   are never used, Startup/Trace about the calls of the start that may fail,
--   Startup/Services is `DynamicService`, Startup/Panics and Startup/Proxied follow a
--   request of the assembled server, Startup/Phases any sequence of its handlers.
-- Lessons: examples/, programs on their own, a file for each that is modelled, those about the
--   peer, the choice of a backend, refusals, the cache and other services in a folder each;
--   Lessons/Shared is the state of one exchange with a lesson's service, and the calls of the
--   framework that lessons share. Handlers are named as in `ProxyHttp`. A lesson's `main` stands
--   in its file, over the calls of Lessons/Mains/Server; Lessons/Mains/Protocol has the order of
--   its steps. What runs concurrently (Lessons/InflightLimit/Bound,
--   Lessons/DynamicReconfiguration) is a sequence of atomic steps, split where the code awaits.
-- Examples: runs at concrete inputs.
--
-- The set of backends is a list, and a quotient of it in Upstreams/Factory/Sets; `same_backend`,
-- the equality of backends, is taken to be reflexive or, there, substitutive.
--
-- Bounds: `usize` is 64 bits, and the counter of a body's bytes wraps around at 2^64, as in a
-- release build; durations and instants are numbers of nanoseconds without a bound. The gateway's
-- recursion is on lists. Of the lessons, `EchoServer.process_new` has one fuel more than the
-- bytes of the input, each turn reading at least one, and `GracefulShutdown.start` the
-- milliseconds until the signal and one, each turn taking more than one. Its sleeps may be late,
-- as timers are. A `&mut` that is written through is the value with its write-back. A call
-- with an answer from outside (a random id, a choice of the balancer, a file, a name's
-- addresses) takes the number of the call. Hash maps are association lists.
--
-- Not modelled: logging to standard error, the derived deserialisation of the configuration, the
-- command line's parse, the framework's `bootstrap` and `run_forever`, what the lessons 01, 02 and
-- 04 log, the handlers of other lessons that only log, and the planned middlewares (auth, cache,
-- concurrency, purge, rate limit), whose files hold doc comments only.
pub mod Base
pub mod Config
pub mod Error
pub mod Pingora
pub mod Router
pub mod Context
pub mod Request
pub mod Upstream
pub mod Upstreams
pub mod Middleware
pub mod Middlewares
pub mod Gateway
pub mod Startup
pub mod Lessons
mod Examples
