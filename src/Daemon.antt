-- ===== src/Daemon.antt =====
-- The daemon, Src/test.c: what its threads do in a round, before it, and together.
pub mod Advertise
pub mod Request
pub mod Lease
pub mod Listen
pub mod Threads
pub mod Start
pub mod Setup
pub mod Process
pub mod Program
pub mod Main
mod Tests
