-- ===== src/Tmux.antt =====
-- native/solstone-tmux/src/tmux.rs
pub mod Pattern
pub mod Fields
pub mod Rows
pub mod Act
pub mod Clients
pub mod Poll
mod Tests
mod Examples
