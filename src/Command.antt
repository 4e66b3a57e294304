-- ===== src/Command.antt =====
-- cmd/attndb/main.go: what the subcommands share.
pub mod Pools
pub mod Samples
pub mod Calibration
pub mod Results
