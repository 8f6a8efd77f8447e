-- ===== src/Proto/HandshakePayload.antt =====
-- crates/remoteway-proto/src/handshake.rs: HandshakePayload. Version and capabilities; the four reserved bytes are one field here.
use remote_way.Prelude.{
  ℕ, ◌<◌, ◌^◌, ◌≡◌, refl, List, ◌++◌, Option, none, some, length, take, drop, ◌==◌, if◌then◌else◌,
  arith,
}
use remote_way.Proto.Wire.{le_bytes, from_le, from_le-le_bytes}

pub record HandshakePayload : Type 0 where
  pub version : ℕ
  pub capture_flags : ℕ
  pub compress_flags : ℕ
  pub reserved : ℕ

abbrev pub size : ℕ
size = 8

unfoldable pub new : ℕ → ℕ → HandshakePayload
new capture_flags compress_flags = record {
  version = 1;
  capture_flags = capture_flags;
  compress_flags = compress_flags;
  reserved = 0;
}

unfoldable pub as_bytes : HandshakePayload → List ℕ
as_bytes r =
    le_bytes 2 r.version
    ++ (le_bytes 1 r.capture_flags ++ (le_bytes 1 r.compress_flags ++ (le_bytes 4 r.reserved)))

unfoldable pub ref_from_bytes : List ℕ → Option HandshakePayload
ref_from_bytes bytes =
    if length bytes == size
    then some (record {
      version = from_le (take 2 bytes);
      capture_flags = from_le (take 1 (drop 2 bytes));
      compress_flags = from_le (take 1 (drop 3 bytes));
      reserved = from_le (take 4 (drop 4 bytes));
    })
    else none

-- The fields fit their widths.
pub record Fits (r : HandshakePayload) : Type 0 where
  pub version_fits : r.version < 256 ^ 2
  pub capture_flags_fits : r.capture_flags < 256 ^ 1
  pub compress_flags_fits : r.compress_flags < 256 ^ 1
  pub reserved_fits : r.reserved < 256 ^ 4

pub length-as_bytes : (r : HandshakePayload) → length (as_bytes r) ≡ size
unfolding as_bytes le_bytes
length-as_bytes r = refl

pub ref_from_bytes-as_bytes : (r : HandshakePayload) → Fits r → ref_from_bytes (as_bytes r) ≡ some r
unfolding as_bytes ref_from_bytes le_bytes
ref_from_bytes-as_bytes r f = ground (
  arith,
  from_le-le_bytes 2 r.version,
  from_le-le_bytes 1 r.capture_flags,
  from_le-le_bytes 1 r.compress_flags,
  from_le-le_bytes 4 r.reserved,
)
