-- ===== src/Examples.antt =====
-- The theorems of the pages at concrete inputs: paths, tokens, logs, forms and answers.
pub mod Session
pub mod Logs
pub mod Lists
pub mod Forms
pub mod Users
pub mod Menus
pub mod Runs
pub mod Saving
pub mod Store
pub mod Handlers
pub mod Permissions
