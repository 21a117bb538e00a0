-- ===== src/KeypairPages.antt =====
-- The pages of the signing keys, webapp-admin/src/components/Keypair*.js, one child module for each.
pub mod Add
pub mod Edit
pub mod Generate
pub mod Store
pub mod Overview
pub mod Status
pub mod Naming
pub mod Polling
