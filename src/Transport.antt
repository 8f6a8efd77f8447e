-- ===== src/Transport.antt =====
-- crates/remoteway-transport/src: the multiplexed byte stream.
pub mod ChunkSender
pub mod FlowControl
pub mod Multiplexer
pub mod RoundTrip
pub mod SshTransport
