-- ===== src/Reconcile.antt =====
-- internal/reconcile/reconcile.go: keeping an index in sync with a directory tree.
pub mod Index
pub mod Passes
