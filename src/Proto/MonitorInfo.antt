-- ===== src/Proto/MonitorInfo.antt =====
-- crates/remoteway-proto/src/monitor.rs: MonitorInfo. An output; `x` and `y` are the 16-bit patterns of signed numbers.
use remote_way.Prelude.{
  ℕ, ◌<◌, ◌^◌, ◌≡◌, refl, List, ◌++◌, Option, none, some, length, take, drop, ◌==◌, if◌then◌else◌,
  arith,
}
use remote_way.Proto.Wire.{le_bytes, from_le, from_le-le_bytes}

pub record MonitorInfo : Type 0 where
  pub stream_id : ℕ
  pub x : ℕ
  pub y : ℕ
  pub pad : ℕ
  pub width : ℕ
  pub height : ℕ
  pub refresh_mhz : ℕ
  pub scale : ℕ

abbrev pub size : ℕ
size = 24

unfoldable pub new : ℕ → ℕ → ℕ → ℕ → ℕ → ℕ → ℕ → MonitorInfo
new stream_id x y width height refresh_mhz scale = record {
  stream_id = stream_id;
  x = x;
  y = y;
  pad = 0;
  width = width;
  height = height;
  refresh_mhz = refresh_mhz;
  scale = scale;
}

unfoldable pub as_bytes : MonitorInfo → List ℕ
as_bytes r =
    le_bytes 2 r.stream_id
    ++ (le_bytes 2 r.x
        ++ (le_bytes 2 r.y
            ++ (le_bytes 2 r.pad
                ++ (le_bytes 4 r.width
                    ++ (le_bytes 4 r.height
                        ++ (le_bytes 4 r.refresh_mhz ++ (le_bytes 4 r.scale)))))))

unfoldable pub ref_from_bytes : List ℕ → Option MonitorInfo
ref_from_bytes bytes =
    if length bytes == size
    then some (record {
      stream_id = from_le (take 2 bytes);
      x = from_le (take 2 (drop 2 bytes));
      y = from_le (take 2 (drop 4 bytes));
      pad = from_le (take 2 (drop 6 bytes));
      width = from_le (take 4 (drop 8 bytes));
      height = from_le (take 4 (drop 12 bytes));
      refresh_mhz = from_le (take 4 (drop 16 bytes));
      scale = from_le (take 4 (drop 20 bytes));
    })
    else none

-- The fields fit their widths.
pub record Fits (r : MonitorInfo) : Type 0 where
  pub stream_id_fits : r.stream_id < 256 ^ 2
  pub x_fits : r.x < 256 ^ 2
  pub y_fits : r.y < 256 ^ 2
  pub pad_fits : r.pad < 256 ^ 2
  pub width_fits : r.width < 256 ^ 4
  pub height_fits : r.height < 256 ^ 4
  pub refresh_mhz_fits : r.refresh_mhz < 256 ^ 4
  pub scale_fits : r.scale < 256 ^ 4

pub length-as_bytes : (r : MonitorInfo) → length (as_bytes r) ≡ size
unfolding as_bytes le_bytes
length-as_bytes r = refl

pub ref_from_bytes-as_bytes : (r : MonitorInfo) → Fits r → ref_from_bytes (as_bytes r) ≡ some r
unfolding as_bytes ref_from_bytes le_bytes
ref_from_bytes-as_bytes r f = ground (
  arith,
  from_le-le_bytes 2 r.stream_id,
  from_le-le_bytes 2 r.x,
  from_le-le_bytes 2 r.y,
  from_le-le_bytes 2 r.pad,
  from_le-le_bytes 4 r.width,
  from_le-le_bytes 4 r.height,
  from_le-le_bytes 4 r.refresh_mhz,
  from_le-le_bytes 4 r.scale,
)
