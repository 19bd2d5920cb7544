-- ===== src/Agent.antt =====
-- server/internal/agent: what is read of the coding agents' own records.
pub mod Fed
pub mod Protobuf
pub mod Report
pub mod Record
pub mod Parsed
pub mod Claude
pub mod Codex
pub mod Agy
pub mod Command
mod Runs
