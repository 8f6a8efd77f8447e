-- ===== src/Compress/Delta.antt =====
-- crates/remoteway-compress/src/delta.rs. A frame is its bytes; `none` is a panic, which an index
-- or a range outside of a slice makes.
pub mod Rows
pub mod Encode
pub mod Decode
pub mod Paint
use remote_way.Prelude.{
  ℕ, zero, suc, ◌+◌, ◌-◌, ◌*◌, ◌/◌, ◌%◌, bit_xor, Bool, true, false, ◌&&◌, List, [], ◌∷◌, ◌++◌,
  Option, none, some, length, take, drop, set, get_elem?, leb, ◌==◌, if◌then◌else◌,
}

infixl 5 ◌>>=◌
abbrev pub ◌>>=◌ {ℓ κ} : {A : Type ℓ} {B : Type κ} → Option A → (A → Option B) → Option B
none >>= f = none
some a >>= f = f a

pub record DamageRect : Type 0 where
  pub x : ℕ
  pub y : ℕ
  pub width : ℕ
  pub height : ℕ

unfoldable pub pixel_count : DamageRect → ℕ
pixel_count r = r.width * r.height

-- `bytes[from..to]`
abbrev pub range : List ℕ → ℕ → ℕ → Option (List ℕ)
range bytes from to =
    if leb from to && leb to (length bytes) then some (take (to - from) (drop from bytes)) else none

-- The exclusive or of two slices, byte by byte, as far as both go.
abbrev pub xor_bytes : List ℕ → List ℕ → List ℕ
xor_bytes [] ps = []
xor_bytes (c ∷ cs) [] = []
xor_bytes (c ∷ cs) (p ∷ ps) = bit_xor c p ∷ xor_bytes cs ps

-- Where row `row` of a rectangle starts and ends in the frame.
abbrev pub row_start : DamageRect → ℕ → ℕ → ℕ
row_start rect stride row = (rect.y + row) * stride + rect.x * 4

abbrev pub row_end : DamageRect → ℕ → ℕ → ℕ
row_end rect stride row = (rect.y + row) * stride + (rect.x * 4 + rect.width * 4)

module _ (current previous : List ℕ) (stride : ℕ) where
  -- `for row in row..row + n`
  unfoldable pub scalar_rows : DamageRect → ℕ → ℕ → List ℕ → Option (List ℕ)
  scalar_rows rect zero row output = some output
  scalar_rows rect (suc n) row output = do
    cur ← range current (row_start rect stride row) (row_end rect stride row)
    prev ← range previous (row_start rect stride row) (row_end rect stride row)
    scalar_rows rect n (row + 1) (output ++ xor_bytes cur prev)

  unfoldable pub scalar_regions : List DamageRect → List ℕ → Option (List ℕ)
  scalar_regions [] output = some output
  scalar_regions (rect ∷ regions) output = do
    output' ← scalar_rows rect rect.height 0 output
    scalar_regions regions output'

  -- The new output and the number of bytes written.
  unfoldable pub delta_encode_scalar : List DamageRect → List ℕ → Option (List ℕ × ℕ)
  delta_encode_scalar regions output = do
    output' ← scalar_regions regions output
    some (output', length output' - length output)

-- Blocks of 32 bytes: `n` are left, from block `i` on.
unfoldable pub simd_blocks : List ℕ → List ℕ → ℕ → ℕ → List ℕ → Option (List ℕ)
simd_blocks a b zero i dst = some dst
simd_blocks a b (suc n) i dst = do
  va ← range a (i * 32) (i * 32 + 32)
  vb ← range b (i * 32) (i * 32 + 32)
  simd_blocks a b n (i + 1) (dst ++ xor_bytes va vb)

-- The bytes after the last block: `n` are left, from index `i` on.
unfoldable pub simd_tail : List ℕ → List ℕ → ℕ → ℕ → List ℕ → Option (List ℕ)
simd_tail a b zero i dst = some dst
simd_tail a b (suc n) i dst = do
  x ← get_elem? a i
  y ← get_elem? b i
  simd_tail a b n (i + 1) (dst ++ (bit_xor x y ∷ []))

unfoldable pub xor_into_vec_simd : List ℕ → List ℕ → List ℕ → Option (List ℕ)
xor_into_vec_simd a b dst = do
  dst' ← simd_blocks a b (length a / 32) 0 dst
  simd_tail a b (length a % 32) (length a / 32 * 32) dst'

module _ (current previous : List ℕ) (stride : ℕ) where
  unfoldable pub simd_rows : DamageRect → ℕ → ℕ → List ℕ → Option (List ℕ)
  simd_rows rect zero row output = some output
  simd_rows rect (suc n) row output = do
    cur ← range current (row_start rect stride row) (row_end rect stride row)
    prev ← range previous (row_start rect stride row) (row_end rect stride row)
    output' ← xor_into_vec_simd cur prev output
    simd_rows rect n (row + 1) output'

  unfoldable pub simd_regions : List DamageRect → List ℕ → Option (List ℕ)
  simd_regions [] output = some output
  simd_regions (rect ∷ regions) output = do
    output' ← simd_rows rect rect.height 0 output
    simd_regions regions output'

  unfoldable pub delta_encode_simd : List DamageRect → List ℕ → Option (List ℕ × ℕ)
  delta_encode_simd regions output = do
    output' ← simd_regions regions output
    some (output', length output' - length output)

module _ (delta previous : List ℕ) (stride : ℕ) where
  -- `for i in i..i + n`: one byte of a row.
  unfoldable pub decode_bytes : ℕ → ℕ → ℕ → ℕ → List ℕ → Option (List ℕ)
  decode_bytes start offset zero i output = some output
  decode_bytes start offset (suc n) i output = do
    p ← get_elem? previous (start + i)
    d ← get_elem? delta (offset + i)
    o ← get_elem? output (start + i)
    decode_bytes start offset n (i + 1) (set output (start + i) (bit_xor p d))

  unfoldable pub decode_rows : DamageRect → ℕ → ℕ → ℕ → List ℕ → Option (ℕ × List ℕ)
  decode_rows rect zero row offset output = some (offset, output)
  decode_rows rect (suc n) row offset output = do
    output' ← decode_bytes (row_start rect stride row) offset (rect.width * 4) 0 output
    decode_rows rect n (row + 1) (offset + rect.width * 4) output'

  unfoldable pub decode_regions : List DamageRect → ℕ → List ℕ → Option (List ℕ)
  decode_regions [] offset output = some output
  decode_regions (rect ∷ regions) offset output = do
    (offset', output') ← decode_rows rect rect.height 0 offset output
    decode_regions regions offset' output'

  -- `copy_from_slice` panics where the lengths differ.
  unfoldable pub delta_decode : List DamageRect → List ℕ → Option (List ℕ)
  delta_decode regions output =
      if length output == length previous then decode_regions regions 0 previous else none
