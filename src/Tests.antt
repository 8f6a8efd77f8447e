-- ===== src/Tests.antt =====
-- The theorems at concrete inputs.
pub mod Transport
pub mod Writer
pub mod Pool
pub mod Latency
pub mod Input
pub mod Handshake
pub mod Compress
pub mod Session
pub mod Sync
mod Encode
mod Capture
mod Display
mod Interpolate
mod Downscale
mod ExtCapture
