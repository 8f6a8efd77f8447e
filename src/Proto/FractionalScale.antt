-- ===== src/Proto/FractionalScale.antt =====
-- crates/remoteway-proto/src/monitor.rs: FractionalScale. A scale in 1/120 units.
use remote_way.Prelude.{
  ℕ, ◌<◌, ◌^◌, ◌≡◌, refl, List, ◌++◌, Option, none, some, length, take, drop, ◌==◌, if◌then◌else◌,
  arith,
}
use remote_way.Proto.Wire.{le_bytes, from_le, from_le-le_bytes}

pub record FractionalScale : Type 0 where
  pub stream_id : ℕ
  pub scale_120 : ℕ

abbrev pub size : ℕ
size = 4

unfoldable pub new : ℕ → ℕ → FractionalScale
new stream_id scale_120 = record { stream_id = stream_id; scale_120 = scale_120 }

unfoldable pub as_bytes : FractionalScale → List ℕ
as_bytes r = le_bytes 2 r.stream_id ++ (le_bytes 2 r.scale_120)

unfoldable pub ref_from_bytes : List ℕ → Option FractionalScale
ref_from_bytes bytes =
    if length bytes == size
    then some
        (record { stream_id = from_le (take 2 bytes); scale_120 = from_le (take 2 (drop 2 bytes)) })
    else none

-- The fields fit their widths.
pub record Fits (r : FractionalScale) : Type 0 where
  pub stream_id_fits : r.stream_id < 256 ^ 2
  pub scale_120_fits : r.scale_120 < 256 ^ 2

pub length-as_bytes : (r : FractionalScale) → length (as_bytes r) ≡ size
unfolding as_bytes le_bytes
length-as_bytes r = refl

pub ref_from_bytes-as_bytes : (r : FractionalScale) → Fits r → ref_from_bytes (as_bytes r) ≡ some r
unfolding as_bytes ref_from_bytes le_bytes
ref_from_bytes-as_bytes r f =
    ground (arith, from_le-le_bytes 2 r.stream_id, from_le-le_bytes 2 r.scale_120)
