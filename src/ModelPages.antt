-- ===== src/ModelPages.antt =====
-- The pages of the models, webapp-admin/src/components/Model*.js, one child module for each.
pub mod Edit
pub mod Overview
pub mod Assertion
pub mod Errors
pub mod Headers
