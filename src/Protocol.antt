-- ===== src/Protocol.antt =====
-- ts/synclog/src/proto/synclog/v1: the generated message types that the SDK and the gateway
-- exchange, a module for each file.
pub mod Event
pub mod Service
pub mod Snapshot
pub mod Gateway
pub mod Admin
