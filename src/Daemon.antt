-- ===== src/Daemon.antt =====
-- crates/tessra-daemon: the parts of the daemon that decide.
pub mod Anomaly
