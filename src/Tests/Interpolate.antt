-- ===== src/Tests/Interpolate.antt =====
-- The interpolation at concrete frames.
use remote_way.Prelude.{
  true, false, ℕ, ◌+◌, ◌%◌, ◌^◌, false, List, [], ◌∷◌, none, some, ◌≡◌, refl, arith,
}
use remote_way.Interpolate.Float.{
  F32, nan, finite, in_unit_interval, scale_u64, round_f64, excess, units,
}
use remote_way.Interpolate.{GpuFrame, ok, err, invalid_factor, same_dimensions}
use remote_way.Interpolate.{init_failed}
use remote_way.Interpolate.Backend.{
  select_best, detect_available, check_fsr3, check_fsr2, create_backend,
}
use remote_way.Interpolate.LinearBlend.{
  t_fixed, blended, blend, blend_timestamp, blend_interpolate, linear_blend_interpolator,
}
use remote_way.Interpolate.LinearBlend.Between.{InBetween, blend_interpolate-InBetween}
use remote_way.Interpolate.Manager.{interpolate}
use remote_way.Interpolate.Manager.Window.{
  Call, pushes, interpolates, resets, newest, previous, continued, pushed, after_calls, Asked,
  after_calls-window,
}

abbrev frame : List ℕ → ℕ → GpuFrame
frame bytes time = record { bytes = bytes; width = 1; height = 1; stride = 4; timestamp_ns = time }

abbrev dark : GpuFrame
dark = frame (0 ∷ 10 ∷ 200 ∷ 255 ∷ []) 1000

abbrev bright : GpuFrame
bright = frame (200 ∷ 20 ∷ 100 ∷ 255 ∷ []) 3000

-- One half.
abbrev half : F32
half = finite false (2 ^ 148)

half_way : blend_interpolate dark bright half ≡ ok (frame (100 ∷ 15 ∷ 150 ∷ 255 ∷ []) 2000)
unfolding blend_interpolate in_unit_interval units same_dimensions blend blended t_fixed
    blend_timestamp scale_u64 round_f64 excess
half_way = refl

not_a_number : blend_interpolate dark bright nan ≡ err (invalid_factor nan)
unfolding blend_interpolate in_unit_interval
not_a_number = refl

-- Of a tie the even one is taken.
tie : round_f64 (2 ^ 53 + 1) ≡ 2 ^ 53
unfolding round_f64 excess
tie = refl

blend_interpolate-InBetween_example :
    (r : GpuFrame) × (blend_interpolate dark bright half ≡ ok r) × InBetween dark bright r
unfolding in_unit_interval units same_dimensions
blend_interpolate-InBetween_example =
    blend_interpolate-InBetween dark bright half (2 ^ 148) refl refl refl
      (omega arith, (omega arith, (omega arith, (omega arith, tt))))
      (omega arith, (omega arith, (omega arith, (omega arith, tt)))) (omega arith) (omega arith)

-- From the last to the first: a frame after a reset, and one more that continues it.
abbrev calls : List Call
calls =
    pushes bright
    ∷ interpolates half
    ∷ pushes dark
    ∷ resets
    ∷ interpolates half
    ∷ pushes bright
    ∷ []

after_calls-window_example :
    let m = after_calls linear_blend_interpolator tt calls in
    Asked linear_blend_interpolator tt m half
      (previous calls)
      (newest calls)
      (interpolate linear_blend_interpolator m half)
    × (m.frame_count ≡ pushed calls % 2 ^ 64)
after_calls-window_example = after_calls-window linear_blend_interpolator tt calls half

-- The pair of it, and none right after the reset.
pair : (previous calls ≡ some dark) × (newest calls ≡ some bright)
unfolding previous newest continued
pair = (refl, refl)

no_pair : previous (pushes dark ∷ resets ∷ pushes bright ∷ []) ≡ none
unfolding previous continued
no_pair = refl

-- A build with FSR 2 on a machine whose Vulkan is there but does not serve it has no backend at all.
no_fallback :
    select_best
      (record { has_fsr2 = true; has_fsr3 = false; has_fsr2_rife = false })
      (record {
        is_vulkan_available = true;
        new_fsr2 = some init_failed;
        new_fsr3 = none;
        new_fsr2_rife = none;
      })
    ≡ err init_failed
unfolding select_best detect_available check_fsr3 check_fsr2 create_backend
no_fallback = refl
