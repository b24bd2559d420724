-- ===== src/Validate.antt =====
-- tee/tools/pkg/validate and tee/tools/cmd/verify-deploy: the checks of a deployment.
pub mod Report
pub mod Host
pub mod EnvFile
pub mod Deploy
pub mod Registration
pub mod Services
pub mod Machine
pub mod Steps
pub mod Command
