-- ===== src/Serve.antt =====
-- How the command assembles a database and feeds the reconciler: assembleDB of cmd/attndb/main.go,
-- and the ingester of a pass of cmd/attndb/serve.go.
pub mod Assemble
pub mod Watch
