-- ===== src/Core.antt =====
-- internal/core: the coordinates and the data that all parts share, and the vector scores.
pub mod Spans
pub mod Nth
pub mod Types
pub mod Floats
pub mod Vec
