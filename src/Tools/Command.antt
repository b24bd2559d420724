-- ===== src/Tools/Command.antt =====
-- The commands of tee/tools/cmd that put the packages' operations together.
pub mod Deploying
pub mod NewExtension
pub mod RegisterTee
pub mod Governing
pub mod StartProxy
