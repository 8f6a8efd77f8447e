-- ===== src/Tests/Downscale.antt =====
-- Making concrete pictures smaller.
use remote_way.Prelude.{[], ◌∷◌, some, replicate, ◌≡◌, refl}
use remote_way.Session.Downscale.{
  Source, pixel_offset, add_pixel, add_row, add_rows, box_start, box_end, box_pixel, write_each,
  downscale_box, copy_pixel, nearest_pixel, downscale_nearest,
}
use remote_way.Session.Downscale.Bounded.{Within}

-- Two pixels in each of two rows.
abbrev four_pixels : Source
four_pixels = record {
  bytes = 10 ∷ 20 ∷ 30 ∷ 255 ∷ 30 ∷ 40 ∷ 50 ∷ 255 ∷ 50 ∷ 60 ∷ 70 ∷ 255 ∷ 70 ∷ 80 ∷ 91 ∷ 255 ∷ [];
  width = 2;
  height = 2;
  stride = 8;
}

averaged : downscale_box four_pixels 1 1 ≡ some (40 ∷ 50 ∷ 60 ∷ 255 ∷ [])
unfolding downscale_box write_each box_pixel box_start box_end add_rows add_row add_pixel
    pixel_offset
averaged = refl

nearest : downscale_nearest four_pixels 1 1 ≡ some (10 ∷ 20 ∷ 30 ∷ 255 ∷ [])
unfolding downscale_nearest write_each nearest_pixel box_start copy_pixel pixel_offset
nearest = refl

-- Not smaller: all zeroes.
not_smaller : downscale_box four_pixels 2 2 ≡ some (replicate 16 0)
unfolding downscale_box
not_smaller = refl
