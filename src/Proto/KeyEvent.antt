-- ===== src/Proto/KeyEvent.antt =====
-- crates/remoteway-proto/src/input.rs: KeyEvent. A key pressed, released or repeated.
use remote_way.Prelude.{
  ℕ, ◌<◌, ◌^◌, ◌≡◌, refl, List, ◌++◌, Option, none, some, length, take, drop, ◌==◌, if◌then◌else◌,
  arith,
}
use remote_way.Proto.Wire.{le_bytes, from_le, from_le-le_bytes}

pub record KeyEvent : Type 0 where
  pub key : ℕ
  pub state : ℕ

abbrev pub size : ℕ
size = 8

unfoldable pub as_bytes : KeyEvent → List ℕ
as_bytes r = le_bytes 4 r.key ++ (le_bytes 4 r.state)

unfoldable pub ref_from_bytes : List ℕ → Option KeyEvent
ref_from_bytes bytes =
    if length bytes == size
    then some (record { key = from_le (take 4 bytes); state = from_le (take 4 (drop 4 bytes)) })
    else none

-- The fields fit their widths.
pub record Fits (r : KeyEvent) : Type 0 where
  pub key_fits : r.key < 256 ^ 4
  pub state_fits : r.state < 256 ^ 4

pub length-as_bytes : (r : KeyEvent) → length (as_bytes r) ≡ size
unfolding as_bytes le_bytes
length-as_bytes r = refl

pub ref_from_bytes-as_bytes : (r : KeyEvent) → Fits r → ref_from_bytes (as_bytes r) ≡ some r
unfolding as_bytes ref_from_bytes le_bytes
ref_from_bytes-as_bytes r f = ground (arith, from_le-le_bytes 4 r.key, from_le-le_bytes 4 r.state)
