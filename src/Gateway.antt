-- ===== src/Gateway.antt =====
-- src/gateway.rs: the handlers of `ProxyHttp`, over the chain of middlewares and the router.
pub mod Chain
pub mod Requests
pub mod Connections
pub mod Responses
pub mod Failures
