-- ===== src/Compress.antt =====
-- crates/remoteway-compress/src: delta coding and compression of damaged regions.
pub mod Delta
pub mod Compressor
pub mod Pipeline
