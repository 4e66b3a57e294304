-- ===== src/Db.antt =====
-- internal/db/db.go: the passes composed into one database.
pub mod Compose
pub mod Calibrate
