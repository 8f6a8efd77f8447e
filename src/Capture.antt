-- ===== src/Capture.antt =====
-- crates/remoteway-capture/src: which desktop runs, the variables of its session, and the capture of frames.
pub mod Text
pub mod DesktopDetect
pub mod Environment
pub mod Frame
pub mod ExtCapture
pub mod ExtFrame
