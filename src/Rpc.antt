-- ===== src/Rpc.antt =====
-- dummy_rpc_dealer_router/sync_rpc: a client and a server that keep messages by topic.
pub mod Messages
pub mod Service
pub mod Client
pub mod Store
pub mod Refinement
pub mod Routing
pub mod Programs
pub mod Exchange
