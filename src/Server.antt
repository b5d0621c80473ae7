-- ===== src/Server.antt =====
-- server/: the RPC server.
pub mod Slices
pub mod Uri
pub mod Methods
pub mod Register
pub mod Store
pub mod Context
pub mod Hooks
pub mod Requests
pub mod Responses
pub mod Serve
pub mod Listen
pub mod Shutdown
pub mod Grace
mod Tests
