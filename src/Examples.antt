-- ===== src/Examples.antt =====
-- Runs of the model at concrete inputs.
mod Instance
mod Context
mod Routing
mod Middlewares
mod Upstreams
mod Phases
mod Factory
mod Startup
mod Lessons
