-- ===== src/Server.antt =====
-- crates/bigtop-server: the control plane.
pub mod Ipam
pub mod Journal
pub mod State
pub mod Scheduler
pub mod Lifecycle
pub mod Replay
pub mod Shadow
pub mod Startup
pub mod Serve
pub mod Api
pub mod Metrics
