-- ===== src/Service.antt =====
-- internal/config, internal/server and the main programs of cmd: how a service is configured, which
-- address it serves, how it starts, and how the SSE service and
-- the execution space service stop.
pub mod Config
pub mod Server
pub mod Routes
pub mod Start
pub mod Issuing
pub mod Routed
pub mod Shutdown
pub mod Waiting
pub mod Tests
