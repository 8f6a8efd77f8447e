-- ===== src/Proto/Wire.antt =====
-- How the packed structs of crates/remoteway-proto/src lie in memory on a little-endian machine:
-- the fields one after the other with no padding, each with its lowest byte first.
use remote_way.Prelude.{
  ℕ, zero, suc, ◌+◌, ◌*◌, ◌/◌, ◌%◌, ◌^◌, ◌<◌, ◌≡◌, refl, ap₂, ◌∙◌, List, [], ◌∷◌, ◌++◌, length,
  take, drop, take-append-drop, All, arith,
}
use native.Mathlib.Nat.{pow-suc}

abbrev pub IsU8 : ℕ → Type 0
IsU8 n = n < 2 ^ 8

abbrev pub IsU16 : ℕ → Type 0
IsU16 n = n < 2 ^ 16

abbrev pub IsU32 : ℕ → Type 0
IsU32 n = n < 2 ^ 32

abbrev pub IsU64 : ℕ → Type 0
IsU64 n = n < 2 ^ 64

-- The w bytes of a field, lowest first.
unfoldable pub le_bytes : ℕ → ℕ → List ℕ
le_bytes zero v = []
le_bytes (suc w) v = (v % 256) ∷ le_bytes w (v / 256)

-- The number that such bytes stand for.
unfoldable pub from_le : List ℕ → ℕ
from_le [] = 0
from_le (b ∷ bs) = b + 256 * from_le bs

pub length-le_bytes : (w v : ℕ) → length (le_bytes w v) ≡ w
unfolding le_bytes
length-le_bytes zero v = refl
length-le_bytes (suc w) v = omega (arith, length-le_bytes w (v / 256))

pub le_bytes-IsU8 : (w v : ℕ) → All IsU8 (le_bytes w v)
unfolding le_bytes
le_bytes-IsU8 zero v = tt
le_bytes-IsU8 (suc w) v = (omega arith, le_bytes-IsU8 w (v / 256))

pub from_le-le_bytes : (w v : ℕ) → v < 256 ^ w → from_le (le_bytes w v) ≡ v
unfolding le_bytes from_le
from_le-le_bytes zero v h = omega arith
from_le-le_bytes (suc w) v h =
    omega (arith, from_le-le_bytes w (v / 256) (omega (arith, pow-suc 256 w)))

pub le_bytes-from_le : (bs : List ℕ) → All IsU8 bs → le_bytes (length bs) (from_le bs) ≡ bs
unfolding le_bytes from_le
le_bytes-from_le [] h = refl
le_bytes-from_le (b ∷ bs) h =
    let low : (b + 256 * from_le bs) % 256 ≡ b = omega (arith, h.0) in
    let high : (b + 256 * from_le bs) / 256 ≡ from_le bs = omega (arith, h.0) in
    rw (low, high, le_bytes-from_le bs h.1)

pub from_le-lt : (bs : List ℕ) → All IsU8 bs → from_le bs < 256 ^ length bs
unfolding from_le
from_le-lt [] h = omega arith
from_le-lt (b ∷ bs) h = omega (arith, pow-suc 256 (length bs), from_le-lt bs h.1, h.0)

-- Writing back the field that was read from the front of `bs`, before the bytes that follow it.
pub le_bytes-take :
    (w : ℕ) (bs rest : List ℕ)
    → length (take w bs) ≡ w
    → All IsU8 (take w bs)
    → rest ≡ drop w bs
    → le_bytes w (from_le (take w bs)) ++ rest ≡ bs
le_bytes-take w bs rest e h r =
    ap₂ ◌++◌ (rw e at (le_bytes-from_le (take w bs) h)) r ∙ take-append-drop w bs
