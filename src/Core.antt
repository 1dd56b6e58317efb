-- ===== src/Core.antt =====
-- crates/bigtop-core: the domain types that the server, the agent and the CLI share.
pub mod Ids
pub mod Error
pub mod Resources
pub mod Snapshots
pub mod Network
pub mod Mac
pub mod Types
pub mod Wire
