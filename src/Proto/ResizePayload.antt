-- ===== src/Proto/ResizePayload.antt =====
-- crates/remoteway-proto/src/resize.rs: ResizePayload. A surface got another size.
use remote_way.Prelude.{
  ℕ, ◌<◌, ◌^◌, ◌≡◌, refl, List, ◌++◌, Option, none, some, length, take, drop, ◌==◌, if◌then◌else◌,
  arith,
}
use remote_way.Proto.Wire.{le_bytes, from_le, from_le-le_bytes}

pub record ResizePayload : Type 0 where
  pub surface_id : ℕ
  pub pad : ℕ
  pub width : ℕ
  pub height : ℕ

abbrev pub size : ℕ
size = 12

unfoldable pub new : ℕ → ℕ → ℕ → ResizePayload
new surface_id width height = record {
  surface_id = surface_id;
  pad = 0;
  width = width;
  height = height;
}

unfoldable pub as_bytes : ResizePayload → List ℕ
as_bytes r =
    le_bytes 2 r.surface_id ++ (le_bytes 2 r.pad ++ (le_bytes 4 r.width ++ (le_bytes 4 r.height)))

unfoldable pub ref_from_bytes : List ℕ → Option ResizePayload
ref_from_bytes bytes =
    if length bytes == size
    then some (record {
      surface_id = from_le (take 2 bytes);
      pad = from_le (take 2 (drop 2 bytes));
      width = from_le (take 4 (drop 4 bytes));
      height = from_le (take 4 (drop 8 bytes));
    })
    else none

-- The fields fit their widths.
pub record Fits (r : ResizePayload) : Type 0 where
  pub surface_id_fits : r.surface_id < 256 ^ 2
  pub pad_fits : r.pad < 256 ^ 2
  pub width_fits : r.width < 256 ^ 4
  pub height_fits : r.height < 256 ^ 4

pub length-as_bytes : (r : ResizePayload) → length (as_bytes r) ≡ size
unfolding as_bytes le_bytes
length-as_bytes r = refl

pub ref_from_bytes-as_bytes : (r : ResizePayload) → Fits r → ref_from_bytes (as_bytes r) ≡ some r
unfolding as_bytes ref_from_bytes le_bytes
ref_from_bytes-as_bytes r f = ground (
  arith,
  from_le-le_bytes 2 r.surface_id,
  from_le-le_bytes 2 r.pad,
  from_le-le_bytes 4 r.width,
  from_le-le_bytes 4 r.height,
)
