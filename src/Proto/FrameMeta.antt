-- ===== src/Proto/FrameMeta.antt =====
-- crates/remoteway-proto/src/frame.rs: FrameMeta. The header of a frame payload.
use remote_way.Prelude.{
  ℕ, ◌<◌, ◌^◌, ◌≡◌, refl, List, ◌++◌, Option, none, some, length, take, drop, ◌==◌, if◌then◌else◌,
  arith,
}
use remote_way.Proto.Wire.{le_bytes, from_le, from_le-le_bytes}

pub record FrameMeta : Type 0 where
  pub width : ℕ
  pub height : ℕ
  pub stride : ℕ
  pub num_regions : ℕ

abbrev pub size : ℕ
size = 16

unfoldable pub new : ℕ → ℕ → ℕ → ℕ → FrameMeta
new width height stride num_regions = record {
  width = width;
  height = height;
  stride = stride;
  num_regions = num_regions;
}

unfoldable pub as_bytes : FrameMeta → List ℕ
as_bytes r =
    le_bytes 4 r.width
    ++ (le_bytes 4 r.height ++ (le_bytes 4 r.stride ++ (le_bytes 4 r.num_regions)))

unfoldable pub ref_from_bytes : List ℕ → Option FrameMeta
ref_from_bytes bytes =
    if length bytes == size
    then some (record {
      width = from_le (take 4 bytes);
      height = from_le (take 4 (drop 4 bytes));
      stride = from_le (take 4 (drop 8 bytes));
      num_regions = from_le (take 4 (drop 12 bytes));
    })
    else none

-- The fields fit their widths.
pub record Fits (r : FrameMeta) : Type 0 where
  pub width_fits : r.width < 256 ^ 4
  pub height_fits : r.height < 256 ^ 4
  pub stride_fits : r.stride < 256 ^ 4
  pub num_regions_fits : r.num_regions < 256 ^ 4

pub length-as_bytes : (r : FrameMeta) → length (as_bytes r) ≡ size
unfolding as_bytes le_bytes
length-as_bytes r = refl

pub ref_from_bytes-as_bytes : (r : FrameMeta) → Fits r → ref_from_bytes (as_bytes r) ≡ some r
unfolding as_bytes ref_from_bytes le_bytes
ref_from_bytes-as_bytes r f = ground (
  arith,
  from_le-le_bytes 4 r.width,
  from_le-le_bytes 4 r.height,
  from_le-le_bytes 4 r.stride,
  from_le-le_bytes 4 r.num_regions,
)
