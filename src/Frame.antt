-- ===== src/Frame.antt =====
-- What stands around and inside the pages of webapp-admin/src/App.js, one child module for each part.
pub mod Header
pub mod Footer
pub mod Boxes
pub mod Language
