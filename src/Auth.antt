-- ===== src/Auth.antt =====
-- server/internal/auth: the front door.
pub mod Throttle
mod Runs
