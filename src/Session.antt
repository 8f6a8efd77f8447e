-- ===== src/Session.antt =====
-- crates/remoteway-server/src and crates/remoteway-client/src: the two ends of a session.
pub mod Payload
pub mod Stripes
pub mod Downscale
pub mod Server
pub mod Client
pub mod Link
pub mod Input
pub mod Handshake
pub mod Sync
