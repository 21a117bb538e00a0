-- ===== src/AccountPages.antt =====
-- The pages of the accounts, webapp-admin/src/components/Account*.js, one child module for each.
pub mod Upload
pub mod Edit
pub mod KeyUpload
pub mod Overview
