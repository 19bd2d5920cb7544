-- ===== src/Api.antt =====
-- server/internal/api: the turns that the server is running.
pub mod State
pub mod Turns
pub mod Closing
pub mod Launch
pub mod Post
pub mod Sockets
pub mod Access
mod Runs
