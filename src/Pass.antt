-- ===== src/Pass.antt =====
-- internal/pass/pass.go: a pass chunks the documents, encodes the chunks into its pool, and for a
-- query gives the spans that match.
pub mod Coords
pub mod Lane
