-- ===== src/Session/Downscale.antt =====
-- crates/remoteway-server/src/pipeline.rs: making a picture smaller. Numbers are of 32 bits where the source's are;
-- `none` is the panic of an index out of range or of a division by zero. The destination is written
-- once from its beginning to its end, by rows and pixels, so that it is given as what was written.
pub mod Bounded
pub mod Within
use remote_way.Prelude.{
  ℕ, zero, suc, ◌+◌, ◌-◌, ◌*◌, ◌/◌, ◌%◌, ◌^◌, ◌≤◌, ◌<◌, min, max, bit_and, bit_or, bit_xor, Bool,
  true, false, not, ◌&&◌, ◌||◌, List, [], ◌∷◌, ◌++◌, map, Option, none, some, length, take, drop,
  set, replicate, get_elem?, leb, ltb, ◌==◌, if◌then◌else◌, ◌≡◌, ◌≢◌, ◌⊎◌, inl, inr, refl, ◌∙◌, sym,
  ap, ap₂, subst, arith, append_assoc, append-nil, length-take, length-drop, length-append,
  drop-drop, take-append-drop, length-set, drop_all, take_all, take-length, drop-length, drop-take,
  take-take, take-set, drop-set, drop_get, All, All-take, All-drop, All-append, Bool-cases,
  Option-cases, ==_iff, ltb→lt, lt→ltb, le→not-ltb, not-ltb→le, length-map, get_of_drop,
  length-replicate,
}
use remote_way.Compress.Delta.{◌>>=◌}

-- What is read of a source of `width` by `height` pixels.
pub record Source : Type 0 where
  pub bytes : List ℕ
  pub width : ℕ
  pub height : ℕ
  pub stride : ℕ

-- The sums of the four channels, and the number of pixels in them.
pub record Sums : Type 0 where
  pub acc_r : ℕ
  pub acc_g : ℕ
  pub acc_b : ℕ
  pub acc_a : ℕ
  pub count : ℕ

abbrev pub no_sums : Sums
no_sums = record { acc_r = 0; acc_g = 0; acc_b = 0; acc_a = 0; count = 0 }

unfoldable pub pixel_offset : Source → ℕ → ℕ → ℕ
pixel_offset src sx sy = sy * src.stride % 2 ^ 32 + sx * 4 % 2 ^ 32

unfoldable pub add_pixel : List ℕ → ℕ → Sums → Option Sums
add_pixel bytes off s = do
  r ← get_elem? bytes off
  g ← get_elem? bytes (off + 1)
  b ← get_elem? bytes (off + 2)
  a ← get_elem? bytes (off + 3)
  some (record {
    acc_r = (s.acc_r + r) % 2 ^ 32;
    acc_g = (s.acc_g + g) % 2 ^ 32;
    acc_b = (s.acc_b + b) % 2 ^ 32;
    acc_a = (s.acc_a + a) % 2 ^ 32;
    count = (s.count + 1) % 2 ^ 32;
  })

-- `n` pixels of a row of the source, from `sx` on.
unfoldable pub add_row : Source → ℕ → ℕ → ℕ → Sums → Option Sums
add_row src sy sx zero s = some s
add_row src sy sx (suc n) s = do
  s' ← add_pixel src.bytes (pixel_offset src sx sy) s
  add_row src sy (sx + 1) n s'

-- `m` rows of `n` pixels.
unfoldable pub add_rows : Source → ℕ → ℕ → ℕ → ℕ → Sums → Option Sums
add_rows src sx n sy zero s = some s
add_rows src sx n sy (suc m) s = do s' ← add_row src sy sx n s; add_rows src sx n (sy + 1) m s'

-- Where the part of a destination pixel begins and ends along one side.
unfoldable pub box_start : ℕ → ℕ → ℕ → ℕ
box_start size dst_size d = d * size / dst_size % 2 ^ 32

unfoldable pub box_end : ℕ → ℕ → ℕ → ℕ
box_end size dst_size d =
    min (max ((d + 1) * size / dst_size % 2 ^ 32) (box_start size dst_size d + 1)) size

abbrev pub average : Sums → Option (List ℕ)
average s =
    if s.count == 0
    then none
    else some (
        s.acc_r / s.count % 2 ^ 8
        ∷ s.acc_g / s.count % 2 ^ 8
        ∷ s.acc_b / s.count % 2 ^ 8
        ∷ s.acc_a / s.count % 2 ^ 8
        ∷ [])

-- One pixel of the destination.
unfoldable pub box_pixel : Source → ℕ → ℕ → ℕ → ℕ → Option (List ℕ)
box_pixel src dst_w dst_h dy dx =
    let sx0 = box_start src.width dst_w dx in
    let sy0 = box_start src.height dst_h dy in
    do
      sums ←
          add_rows src sx0 (box_end src.width dst_w dx - sx0) sy0
            (box_end src.height dst_h dy - sy0) no_sums
      average sums

-- What `n` steps of a loop from `i` on write.
unfoldable pub write_each : (ℕ → Option (List ℕ)) → ℕ → ℕ → Option (List ℕ)
write_each step i zero = some []
write_each step i (suc n) = do
  bytes ← step i
  rest ← write_each step (i + 1) n
  some (bytes ++ rest)

abbrev pub dst_stride : ℕ → ℕ
dst_stride dst_w = dst_w * 4 % 2 ^ 32

-- The new bytes of the destination; the stride, which is returned, is `dst_stride dst_w`.
unfoldable pub downscale_box : Source → ℕ → ℕ → Option (List ℕ)
downscale_box src dst_w dst_h =
    if (dst_w == 0) || (dst_h == 0) || (leb src.width dst_w && leb src.height dst_h)
    then some (replicate (dst_stride dst_w * dst_h % 2 ^ 32) 0)
    else write_each (λ dy. write_each (box_pixel src dst_w dst_h dy) 0 dst_w) 0 dst_h

unfoldable pub copy_pixel : List ℕ → ℕ → Option (List ℕ)
copy_pixel bytes si = if leb (si + 4) (length bytes) then some (take 4 (drop si bytes)) else none

unfoldable pub nearest_pixel : Source → ℕ → ℕ → ℕ → ℕ → Option (List ℕ)
nearest_pixel src dst_w dst_h dy dx =
    copy_pixel src.bytes
      (pixel_offset src (box_start src.width dst_w dx) (box_start src.height dst_h dy))

unfoldable pub downscale_nearest : Source → ℕ → ℕ → Option (List ℕ)
downscale_nearest src dst_w dst_h =
    write_each (λ dy. write_each (nearest_pixel src dst_w dst_h dy) 0 dst_w) 0 dst_h
