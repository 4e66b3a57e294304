-- ===== src/Tests.antt =====
-- The theorems at concrete inputs.
mod Chunks
mod Heats
mod Passes
mod Vaults
mod Searches
mod Startup
mod Listings
mod Commands
mod Answers
mod Collections
mod Models
mod Nearest
