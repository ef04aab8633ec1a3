-- ===== src/Browser.antt =====
-- src/browser
pub mod PagePool
