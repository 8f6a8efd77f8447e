-- ===== src/Proto/PointerAxis.antt =====
-- crates/remoteway-proto/src/input.rs: PointerAxis. A scroll; `value` is the bit pattern of a 32-bit float and the padding one field of three bytes.
use remote_way.Prelude.{
  ℕ, ◌<◌, ◌^◌, ◌≡◌, refl, List, ◌++◌, Option, none, some, length, take, drop, ◌==◌, if◌then◌else◌,
  arith,
}
use remote_way.Proto.Wire.{le_bytes, from_le, from_le-le_bytes}

pub record PointerAxis : Type 0 where
  pub axis : ℕ
  pub pad : ℕ
  pub value : ℕ

abbrev pub size : ℕ
size = 8

unfoldable pub as_bytes : PointerAxis → List ℕ
as_bytes r = le_bytes 1 r.axis ++ (le_bytes 3 r.pad ++ (le_bytes 4 r.value))

unfoldable pub ref_from_bytes : List ℕ → Option PointerAxis
ref_from_bytes bytes =
    if length bytes == size
    then some (record {
      axis = from_le (take 1 bytes);
      pad = from_le (take 3 (drop 1 bytes));
      value = from_le (take 4 (drop 4 bytes));
    })
    else none

-- The fields fit their widths.
pub record Fits (r : PointerAxis) : Type 0 where
  pub axis_fits : r.axis < 256 ^ 1
  pub pad_fits : r.pad < 256 ^ 3
  pub value_fits : r.value < 256 ^ 4

pub length-as_bytes : (r : PointerAxis) → length (as_bytes r) ≡ size
unfolding as_bytes le_bytes
length-as_bytes r = refl

pub ref_from_bytes-as_bytes : (r : PointerAxis) → Fits r → ref_from_bytes (as_bytes r) ≡ some r
unfolding as_bytes ref_from_bytes le_bytes
ref_from_bytes-as_bytes r f =
    ground (arith, from_le-le_bytes 1 r.axis, from_le-le_bytes 3 r.pad, from_le-le_bytes 4 r.value)
