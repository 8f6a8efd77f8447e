-- ===== src/Encode.antt =====
-- crates/remoteway-encode/src: the parameters, and the H.264, H.265 and AV1 encoders.
pub mod Params
pub mod Session
pub mod Encoder
pub mod H264
pub mod Picture
pub mod H265
pub mod Av1
pub mod ParameterSets
