-- ===== src/Proto/CursorUpdate.antt =====
-- crates/remoteway-proto/src/cursor.rs: CursorUpdate. A cursor image; hotspots are 16-bit patterns and positions bit patterns of 32-bit floats.
use remote_way.Prelude.{
  ℕ, ◌<◌, ◌^◌, ◌≡◌, refl, List, ◌++◌, Option, none, some, length, take, drop, ◌==◌, if◌then◌else◌,
  arith,
}
use remote_way.Proto.Wire.{le_bytes, from_le, from_le-le_bytes}

pub record CursorUpdate : Type 0 where
  pub surface_id : ℕ
  pub hotspot_x : ℕ
  pub hotspot_y : ℕ
  pub has_bitmap : ℕ
  pub pad : ℕ
  pub bitmap_width : ℕ
  pub bitmap_height : ℕ
  pub x : ℕ
  pub y : ℕ

abbrev pub size : ℕ
size = 20

unfoldable pub as_bytes : CursorUpdate → List ℕ
as_bytes r =
    le_bytes 2 r.surface_id
    ++ (le_bytes 2 r.hotspot_x
        ++ (le_bytes 2 r.hotspot_y
            ++ (le_bytes 1 r.has_bitmap
                ++ (le_bytes 1 r.pad
                    ++ (le_bytes 2 r.bitmap_width
                        ++ (le_bytes 2 r.bitmap_height ++ (le_bytes 4 r.x ++ (le_bytes 4 r.y))))))))

unfoldable pub ref_from_bytes : List ℕ → Option CursorUpdate
ref_from_bytes bytes =
    if length bytes == size
    then some (record {
      surface_id = from_le (take 2 bytes);
      hotspot_x = from_le (take 2 (drop 2 bytes));
      hotspot_y = from_le (take 2 (drop 4 bytes));
      has_bitmap = from_le (take 1 (drop 6 bytes));
      pad = from_le (take 1 (drop 7 bytes));
      bitmap_width = from_le (take 2 (drop 8 bytes));
      bitmap_height = from_le (take 2 (drop 10 bytes));
      x = from_le (take 4 (drop 12 bytes));
      y = from_le (take 4 (drop 16 bytes));
    })
    else none

-- The fields fit their widths.
pub record Fits (r : CursorUpdate) : Type 0 where
  pub surface_id_fits : r.surface_id < 256 ^ 2
  pub hotspot_x_fits : r.hotspot_x < 256 ^ 2
  pub hotspot_y_fits : r.hotspot_y < 256 ^ 2
  pub has_bitmap_fits : r.has_bitmap < 256 ^ 1
  pub pad_fits : r.pad < 256 ^ 1
  pub bitmap_width_fits : r.bitmap_width < 256 ^ 2
  pub bitmap_height_fits : r.bitmap_height < 256 ^ 2
  pub x_fits : r.x < 256 ^ 4
  pub y_fits : r.y < 256 ^ 4

pub length-as_bytes : (r : CursorUpdate) → length (as_bytes r) ≡ size
unfolding as_bytes le_bytes
length-as_bytes r = refl

pub ref_from_bytes-as_bytes : (r : CursorUpdate) → Fits r → ref_from_bytes (as_bytes r) ≡ some r
unfolding as_bytes ref_from_bytes le_bytes
ref_from_bytes-as_bytes r f = ground (
  arith,
  from_le-le_bytes 2 r.surface_id,
  from_le-le_bytes 2 r.hotspot_x,
  from_le-le_bytes 2 r.hotspot_y,
  from_le-le_bytes 1 r.has_bitmap,
  from_le-le_bytes 1 r.pad,
  from_le-le_bytes 2 r.bitmap_width,
  from_le-le_bytes 2 r.bitmap_height,
  from_le-le_bytes 4 r.x,
  from_le-le_bytes 4 r.y,
)
