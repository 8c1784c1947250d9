-- ===== src/Recovery.antt =====
-- native/solstone-tmux/src/recovery.rs: what recovery makes of a segment that a crash left behind.
pub mod Names
pub mod Consistent
pub mod Accepts
pub mod Prefix
pub mod Validate
pub mod Repair
pub mod Empty
pub mod Report
pub mod Quarantine
mod Examples
mod Removals
mod Tests
