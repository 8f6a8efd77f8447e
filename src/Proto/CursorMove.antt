-- ===== src/Proto/CursorMove.antt =====
-- crates/remoteway-proto/src/cursor.rs: CursorMove. A cursor position; `x` and `y` are the bit patterns of 32-bit floats.
use remote_way.Prelude.{
  ℕ, ◌<◌, ◌^◌, ◌≡◌, refl, List, ◌++◌, Option, none, some, length, take, drop, ◌==◌, if◌then◌else◌,
  arith,
}
use remote_way.Proto.Wire.{le_bytes, from_le, from_le-le_bytes}

pub record CursorMove : Type 0 where
  pub surface_id : ℕ
  pub pad : ℕ
  pub x : ℕ
  pub y : ℕ

abbrev pub size : ℕ
size = 12

unfoldable pub as_bytes : CursorMove → List ℕ
as_bytes r = le_bytes 2 r.surface_id ++ (le_bytes 2 r.pad ++ (le_bytes 4 r.x ++ (le_bytes 4 r.y)))

unfoldable pub ref_from_bytes : List ℕ → Option CursorMove
ref_from_bytes bytes =
    if length bytes == size
    then some (record {
      surface_id = from_le (take 2 bytes);
      pad = from_le (take 2 (drop 2 bytes));
      x = from_le (take 4 (drop 4 bytes));
      y = from_le (take 4 (drop 8 bytes));
    })
    else none

-- The fields fit their widths.
pub record Fits (r : CursorMove) : Type 0 where
  pub surface_id_fits : r.surface_id < 256 ^ 2
  pub pad_fits : r.pad < 256 ^ 2
  pub x_fits : r.x < 256 ^ 4
  pub y_fits : r.y < 256 ^ 4

pub length-as_bytes : (r : CursorMove) → length (as_bytes r) ≡ size
unfolding as_bytes le_bytes
length-as_bytes r = refl

pub ref_from_bytes-as_bytes : (r : CursorMove) → Fits r → ref_from_bytes (as_bytes r) ≡ some r
unfolding as_bytes ref_from_bytes le_bytes
ref_from_bytes-as_bytes r f = ground (
  arith,
  from_le-le_bytes 2 r.surface_id,
  from_le-le_bytes 2 r.pad,
  from_le-le_bytes 4 r.x,
  from_le-le_bytes 4 r.y,
)
