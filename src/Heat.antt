-- ===== src/Heat.antt =====
-- internal/heat/heat.go: scored intervals accumulate on a per-document byte axis, and the peaks of
-- the accumulated density are the results.
pub mod Normal
pub mod Density
pub mod Peaks
pub mod Accumulate
