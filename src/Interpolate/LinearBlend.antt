-- ===== src/Interpolate/LinearBlend.antt =====
-- crates/remoteway-interpolate/src/interpolator.rs: the blend of two frames on the processor.
pub mod Between
use remote_way.Prelude.{
  ℕ, zero, suc, ◌+◌, ◌-◌, ◌*◌, ◌/◌, ◌%◌, ◌^◌, ◌≤◌, ◌<◌, min, max, bit_and, bit_or, bit_xor, Bool,
  true, false, not, ◌&&◌, ◌||◌, List, [], ◌∷◌, ◌++◌, map, Option, none, some, length, take, drop,
  set, replicate, get_elem?, leb, ltb, ◌==◌, if◌then◌else◌, ◌≡◌, ◌≢◌, ◌⊎◌, inl, inr, refl, ◌∙◌, sym,
  ap, ap₂, subst, arith, append_assoc, append-nil, length-take, length-drop, length-append,
  drop-drop, take-append-drop, length-set, drop_all, take_all, take-length, drop-length, drop-take,
  take-take, take-set, drop-set, drop_get, All, All-take, All-drop, All-append, Bool-cases,
  Option-cases, ==_iff, ltb→lt, lt→ltb, le→not-ltb, not-ltb→le, length-map, get_of_drop,
  length-replicate,
}
use remote_way.Interpolate.Float.{F32, units, in_unit_interval, scale_u64}
use remote_way.Interpolate.{
  GpuFrame, same_dimensions, InterpolateError, dimension_mismatch, invalid_factor,
  InterpolateResult, ok, err, FrameInterpolator,
}

-- `(t * 256.0) as u16`, which is exact before the fraction is dropped.
unfoldable pub t_fixed : ℕ → ℕ
t_fixed n = n * 256 / units

-- One byte, in 16 bits.
unfoldable pub blended : ℕ → ℕ → ℕ → ℕ
blended fixed va vb = (va * (256 - fixed) % 2 ^ 16 + vb * fixed % 2 ^ 16) % 2 ^ 16 / 2 ^ 8 % 2 ^ 8

-- As many bytes as both frames have.
unfoldable pub blend : ℕ → List ℕ → List ℕ → List ℕ
blend fixed [] bs = []
blend fixed (a ∷ xs) [] = []
blend fixed (a ∷ xs) (b ∷ bs) = blended fixed a b ∷ blend fixed xs bs

unfoldable pub blend_timestamp : ℕ → ℕ → ℕ → ℕ
blend_timestamp n a b = if leb a b then (a + scale_u64 (b - a) n) % 2 ^ 64 else a

abbrev pub blend_frames : GpuFrame → GpuFrame → F32 → Option ℕ → InterpolateResult GpuFrame
blend_frames a b t none = err (invalid_factor t)
blend_frames a b t (some n) =
    if same_dimensions a b
    then ok (record {
      bytes = blend (t_fixed n) a.bytes b.bytes;
      width = a.width;
      height = a.height;
      stride = a.stride;
      timestamp_ns = blend_timestamp n a.timestamp_ns b.timestamp_ns;
    })
    else err (dimension_mismatch a.width a.height b.width b.height)

unfoldable pub blend_interpolate : GpuFrame → GpuFrame → F32 → InterpolateResult GpuFrame
blend_interpolate a b t = blend_frames a b t (in_unit_interval t)

abbrev pub linear_blend_interpolator : FrameInterpolator (Unit {0})
linear_blend_interpolator = record { interpolate = λ s a b t. (s, blend_interpolate a b t) }
