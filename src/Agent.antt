-- ===== src/Agent.antt =====
-- crates/bigtop-agent/src: the agent on each node.
pub mod Shell
pub mod Overlay
pub mod Tap
pub mod Jailer
pub mod Firecracker
pub mod Vsock
pub mod Supervise
pub mod Requests
pub mod Host
pub mod Control
pub mod Polling
pub mod Execution
