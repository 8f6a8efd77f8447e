-- ===== src/Display.antt =====
-- crates/remoteway-display/src: the buffers, the surfaces and the thread that shows frames.
pub mod Shm
pub mod Surface
pub mod Thread
pub mod Presentation
