-- ===== src/Encode.antt =====
-- internal/encode: the encoders.
pub mod Stub
pub mod Colbert
pub mod Single
