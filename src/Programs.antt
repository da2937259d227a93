-- ===== src/Programs.antt =====
-- The main programs: zccp_sh.c, a shell command over the class interface of the client, and zccpd.c,
-- which runs the broker.
pub mod Shell
pub mod Daemon
pub mod Reading
pub mod Ending
pub mod Runs
pub mod Message
mod Examples
