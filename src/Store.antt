-- ===== src/Store.antt =====
-- server/internal/store: what is kept of conversations.
pub mod Title
mod Runs
