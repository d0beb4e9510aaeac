-- ===== src/Rpc.antt =====
-- The RPC layer: include/rpc/, include/utils/object_pool.hpp and src/rpc_provider.cc.
pub mod Context
pub mod Pool
pub mod Dispatcher
pub mod Provider
pub mod Discovery
pub mod Registration
pub mod Controller
pub mod Caller
pub mod Client
pub mod EndToEnd
pub mod Server
