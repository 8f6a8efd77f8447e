-- ===== src/Capture/Frame.antt =====
-- crates/remoteway-capture/src/backend.rs: captured frames; and the turning of their pixels in
-- crates/remoteway-capture/src/ext_capture.rs. The bytes are changed in place; here the new ones are given.
pub mod Flipped
pub mod Mirrored
use remote_way.Prelude.{
  ℕ, zero, suc, ◌+◌, ◌-◌, ◌*◌, ◌/◌, ◌%◌, ◌^◌, ◌≤◌, ◌<◌, min, max, bit_and, bit_or, bit_xor, Bool,
  true, false, not, ◌&&◌, ◌||◌, List, [], ◌∷◌, ◌++◌, map, Option, none, some, length, take, drop,
  set, replicate, get_elem?, leb, ltb, ◌==◌, if◌then◌else◌, ◌≡◌, ◌≢◌, ◌⊎◌, inl, inr, refl, ◌∙◌, sym,
  ap, ap₂, subst, arith, append_assoc, append-nil, length-take, length-drop, length-append,
  drop-drop, take-append-drop, length-set, drop_all, take_all, take-length, drop-length, drop-take,
  take-take, take-set, drop-set, drop_get, All, All-take, All-drop, All-append, Bool-cases,
  Option-cases, ==_iff, ltb→lt, lt→ltb, le→not-ltb, not-ltb→le, length-map, get_of_drop,
  length-replicate,
}
use remote_way.Compress.Delta.{DamageRect}

pub data PixelFormat : Type 0 where
  argb8888 xrgb8888 abgr8888 xbgr8888 : PixelFormat

unfoldable pub from_wl_shm : ℕ → Option PixelFormat
from_wl_shm format =
    if format == 0
    then some argb8888
    else if format == 1
    then some xrgb8888
    else if format == 875708993
    then some abgr8888
    else if format == 875709016
    then some xbgr8888
    else none

-- `bytes` is the field `data`.
pub record CapturedFrame : Type 0 where
  pub bytes : List ℕ
  pub damage : List DamageRect
  pub format : PixelFormat
  pub width : ℕ
  pub height : ℕ
  pub stride : ℕ
  pub timestamp_ns : ℕ

-- The bytes with two parts of a size exchanged, at two multiples of it, the first below the second.
unfoldable pub swap_blocks : ℕ → ℕ → ℕ → List ℕ → List ℕ
swap_blocks size i j bytes =
    take (i * size) bytes
    ++ (take size (drop (j * size) bytes)
        ++ (take ((j - i - 1) * size) (drop ((i + 1) * size) bytes)
            ++ (take size (drop (i * size) bytes) ++ drop ((j + 1) * size) bytes)))

-- The loop ends before `bottom` turns are over.
unfoldable pub flip_loop : ℕ → ℕ → ℕ → ℕ → List ℕ → List ℕ
flip_loop zero stride top bottom bytes = bytes
flip_loop (suc fuel) stride top bottom bytes =
    let rest = flip_loop fuel stride (top + 1) (bottom - 1) (swap_blocks stride top bottom bytes) in
    if ltb top bottom then rest else bytes

-- `none` is the panic of a division by zero.
unfoldable pub flip_rows : List ℕ → ℕ → Option (List ℕ)
flip_rows bytes stride =
    let bottom = length bytes / stride - 1 in
    if stride == 0 then none else some (flip_loop bottom stride 0 bottom bytes)

-- `n` pixels from the `i`th on change places with their counterparts.
unfoldable pub mirror_row : ℕ → ℕ → ℕ → List ℕ → List ℕ
mirror_row zero pixels i row = row
mirror_row (suc n) pixels i row = mirror_row n pixels (i + 1) (swap_blocks 4 i (pixels - 1 - i) row)

-- `n` whole rows.
unfoldable pub mirror_chunks : ℕ → ℕ → List ℕ → List ℕ
mirror_chunks zero stride bytes = bytes
mirror_chunks (suc n) stride bytes =
    mirror_row (stride / 4 / 2) (stride / 4) 0 (take stride bytes)
    ++ mirror_chunks n stride (drop stride bytes)

-- `none` is the panic of `chunks_exact_mut` at a size of 0.
unfoldable pub mirror_rows : List ℕ → ℕ → Option (List ℕ)
mirror_rows bytes stride =
    if stride == 0 then none else some (mirror_chunks (length bytes / stride) stride bytes)
