-- ===== src/Log.antt =====
-- The Go package pkg/synclog: its types, its errors and the interfaces to storage, and the engine
-- over them.
pub mod Types
pub mod Result
pub mod Storage
pub mod Engine
pub mod Backend
pub mod Serving
