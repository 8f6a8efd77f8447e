-- ===== src/Core.antt =====
-- crates/remoteway-core/src: what the pipeline stages share.
pub mod BufferPool
pub mod Latency
