-- ===== src/Proto/TargetResolutionPayload.antt =====
-- crates/remoteway-proto/src/target_resolution.rs: TargetResolutionPayload. The client asks for frames of this size.
use remote_way.Prelude.{
  ℕ, ◌<◌, ◌^◌, ◌≡◌, refl, List, ◌++◌, Option, none, some, length, take, drop, ◌==◌, if◌then◌else◌,
  arith,
}
use remote_way.Proto.Wire.{le_bytes, from_le, from_le-le_bytes}

pub record TargetResolutionPayload : Type 0 where
  pub width : ℕ
  pub height : ℕ

abbrev pub size : ℕ
size = 8

unfoldable pub new : ℕ → ℕ → TargetResolutionPayload
new width height = record { width = width; height = height }

unfoldable pub as_bytes : TargetResolutionPayload → List ℕ
as_bytes r = le_bytes 4 r.width ++ (le_bytes 4 r.height)

unfoldable pub ref_from_bytes : List ℕ → Option TargetResolutionPayload
ref_from_bytes bytes =
    if length bytes == size
    then some (record { width = from_le (take 4 bytes); height = from_le (take 4 (drop 4 bytes)) })
    else none

-- The fields fit their widths.
pub record Fits (r : TargetResolutionPayload) : Type 0 where
  pub width_fits : r.width < 256 ^ 4
  pub height_fits : r.height < 256 ^ 4

pub length-as_bytes : (r : TargetResolutionPayload) → length (as_bytes r) ≡ size
unfolding as_bytes le_bytes
length-as_bytes r = refl

pub ref_from_bytes-as_bytes :
    (r : TargetResolutionPayload) → Fits r → ref_from_bytes (as_bytes r) ≡ some r
unfolding as_bytes ref_from_bytes le_bytes
ref_from_bytes-as_bytes r f =
    ground (arith, from_le-le_bytes 4 r.width, from_le-le_bytes 4 r.height)
