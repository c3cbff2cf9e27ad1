-- ===== src/Runtime.antt =====
-- The RPC runtime, src/runtime.
pub mod Result
pub mod Frame
pub mod Varint
pub mod Payload
pub mod Hb1
pub mod Rpc
pub mod Wire
pub mod Dispatcher
pub mod Uds
pub mod Context
pub mod Executor
mod Examples
