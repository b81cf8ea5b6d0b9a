-- ===== src/Daemon.antt =====
-- pkg/tuned: what the operand on a node reports of the TuneD daemon.
pub mod Status
pub mod Builtin
pub mod Includes
pub mod Extract
pub mod Control
pub mod Syncer
pub mod Queue
pub mod Retry
pub mod Log
pub mod Report
