-- ===== src/Examples.antt =====
-- The theorems at concrete inputs, with the worlds that they run in.
mod Worlds
mod Guarding
mod Running
mod Ledger
mod Verifying
mod StateFiles
mod Registering
mod Contracts
mod Deploying
mod Trying
mod Commanding
mod Starting
mod Auditing
