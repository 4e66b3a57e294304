-- ===== src/Store.antt =====
-- internal/store: vector storage behind one interface.
pub mod Stamp
pub mod Pool
pub mod Memory
pub mod Qdrant
