-- ===== src/Chunk.antt =====
-- internal/chunk/chunk.go: the chunking strategies.
pub mod Token
pub mod Window
pub mod Paragraph
pub mod Section
pub mod Chunkers
