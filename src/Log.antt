-- ===== src/Log.antt =====
-- log/: what the logger writes.
pub mod File
