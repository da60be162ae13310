-- ===== src/Examples.antt =====
-- Runs of the code on concrete inputs.
pub mod Values
pub mod Orchestrator
pub mod Tunnels
pub mod Updates
pub mod Plugins
pub mod Stores
pub mod Files
pub mod Health
pub mod Backups
pub mod Uploads
