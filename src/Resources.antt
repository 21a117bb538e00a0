-- ===== src/Resources.antt =====
-- webapp-admin/src/models: the REST calls of each resource, one child module for each file. An
-- identifier is a value that is put into the path as text.
pub mod Accounts
pub mod Assertions
pub mod Keypairs
pub mod Models
pub mod SigningLogs
pub mod Users
pub mod Vault
