-- ===== src/Proto/WireRegion.antt =====
-- crates/remoteway-proto/src/frame.rs: WireRegion. A damaged rectangle and the size of its compressed bytes.
use remote_way.Prelude.{
  ℕ, ◌<◌, ◌^◌, ◌≡◌, refl, List, ◌++◌, Option, none, some, length, take, drop, ◌==◌, if◌then◌else◌,
  arith,
}
use remote_way.Proto.Wire.{le_bytes, from_le, from_le-le_bytes}

pub record WireRegion : Type 0 where
  pub x : ℕ
  pub y : ℕ
  pub w : ℕ
  pub h : ℕ
  pub compressed_size : ℕ

abbrev pub size : ℕ
size = 20

unfoldable pub new : ℕ → ℕ → ℕ → ℕ → ℕ → WireRegion
new x y w h compressed_size = record {
  x = x;
  y = y;
  w = w;
  h = h;
  compressed_size = compressed_size;
}

unfoldable pub as_bytes : WireRegion → List ℕ
as_bytes r =
    le_bytes 4 r.x
    ++ (le_bytes 4 r.y ++ (le_bytes 4 r.w ++ (le_bytes 4 r.h ++ (le_bytes 4 r.compressed_size))))

unfoldable pub ref_from_bytes : List ℕ → Option WireRegion
ref_from_bytes bytes =
    if length bytes == size
    then some (record {
      x = from_le (take 4 bytes);
      y = from_le (take 4 (drop 4 bytes));
      w = from_le (take 4 (drop 8 bytes));
      h = from_le (take 4 (drop 12 bytes));
      compressed_size = from_le (take 4 (drop 16 bytes));
    })
    else none

-- The fields fit their widths.
pub record Fits (r : WireRegion) : Type 0 where
  pub x_fits : r.x < 256 ^ 4
  pub y_fits : r.y < 256 ^ 4
  pub w_fits : r.w < 256 ^ 4
  pub h_fits : r.h < 256 ^ 4
  pub compressed_size_fits : r.compressed_size < 256 ^ 4

pub length-as_bytes : (r : WireRegion) → length (as_bytes r) ≡ size
unfolding as_bytes le_bytes
length-as_bytes r = refl

pub ref_from_bytes-as_bytes : (r : WireRegion) → Fits r → ref_from_bytes (as_bytes r) ≡ some r
unfolding as_bytes ref_from_bytes le_bytes
ref_from_bytes-as_bytes r f = ground (
  arith,
  from_le-le_bytes 4 r.x,
  from_le-le_bytes 4 r.y,
  from_le-le_bytes 4 r.w,
  from_le-le_bytes 4 r.h,
  from_le-le_bytes 4 r.compressed_size,
)
