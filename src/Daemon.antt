-- ===== src/Daemon.antt =====
-- server/cmd/daemon: the daemon on the person's computer.
pub mod Turns
pub mod Updater
pub mod Web
pub mod Download
pub mod Check
pub mod Exchange
pub mod RunTurn
pub mod Serve
pub mod Install
pub mod Files
mod Runs
