-- ===== src/Tools.antt =====
-- The tools under tee/tools/pkg that send transactions and keep files.
pub mod Chain
pub mod Command
pub mod Extension
pub mod Governance
pub mod Instructions
pub mod Proxy
pub mod Registration
pub mod Support
pub mod Version
pub mod Audit
pub mod Query
