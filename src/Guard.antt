-- ===== src/Guard.antt =====
-- The guard extension of tee/go: what it reads, decides, signs and serves.
pub mod Data
pub mod World
pub mod Words
pub mod Digest
pub mod Price
pub mod Rpc
pub mod Check
pub mod Handlers
pub mod Interleaving
pub mod Startup
