-- ===== src/Vault.antt =====
-- cmd/attndb/serve.go: the tools of the server that read and write the vault.
pub mod Fault
pub mod Path
pub mod Find
pub mod Disk
pub mod Sessions
pub mod Lines
pub mod Docs
pub mod Glob
pub mod Listing
pub mod Search
