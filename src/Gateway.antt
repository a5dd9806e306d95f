-- ===== src/Gateway.antt =====
-- The Go package pkg/gateway: the public gateway over the log engine. The product's hooks are
-- parameters.
pub mod Types
pub mod Codec
pub mod Bindings
pub mod State
pub mod Batch
pub mod Engine
pub mod Calls
pub mod Selecting
pub mod Passing
pub mod Answers
pub mod Adding
pub mod Waiting
pub mod Watching
