-- ===== src/Vault/Glob/Matches/Decides.antt =====
-- The expression of a whole pattern decides which names match.
