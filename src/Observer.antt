-- ===== src/Observer.antt =====
-- native/solstone-tmux/src/observer.rs: the names and the rotation of segments, and what the status
-- cell shows of synchronisation.
pub mod Linger
pub mod Open
pub mod Manager
mod Tests
mod Examples
