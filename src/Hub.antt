-- ===== src/Hub.antt =====
-- server/internal/hub: every live connection, of browsers and of machines.
pub mod State
pub mod Browsers
pub mod Routing
pub mod Machines
pub mod Requests
pub mod Isolation
pub mod Revocation
pub mod Routes
pub mod Steps
pub mod Targets
pub mod Replies
pub mod Supersede
mod Runs
