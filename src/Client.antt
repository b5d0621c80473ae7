-- ===== src/Client.antt =====
-- client/: the RPC client.
pub mod Pending
pub mod Invoker
pub mod Selector
pub mod Direct
pub mod Caller
pub mod Hooks
pub mod Wrapper
pub mod Dial
pub mod Closing
