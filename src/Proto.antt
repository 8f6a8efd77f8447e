-- ===== src/Proto.antt =====
-- crates/remoteway-proto/src: the messages on the wire.
pub mod Wire
pub mod Header
pub mod FrameMeta
pub mod WireRegion
pub mod ResizePayload
pub mod TargetResolutionPayload
pub mod HandshakePayload
pub mod MonitorInfo
pub mod FractionalScale
pub mod CursorMove
pub mod CursorUpdate
pub mod PointerMotion
pub mod PointerButton
pub mod PointerAxis
pub mod KeyEvent
pub mod InputEvent
