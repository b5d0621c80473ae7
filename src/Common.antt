-- ===== src/Common.antt =====
-- common/: errors, error types and names.
pub mod Errors
pub mod ErrorTypes
pub mod Names
pub mod Trace
pub mod Wire
pub mod Sorting
