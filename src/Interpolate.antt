-- ===== src/Interpolate.antt =====
-- crates/remoteway-interpolate/src/interpolator.rs: the frames and the interface of the backends.
pub mod Float
pub mod LinearBlend
pub mod Manager
pub mod Backend
use remote_way.Prelude.{
  ℕ, zero, suc, ◌+◌, ◌-◌, ◌*◌, ◌/◌, ◌%◌, ◌^◌, ◌≤◌, ◌<◌, min, max, bit_and, bit_or, bit_xor, Bool,
  true, false, not, ◌&&◌, ◌||◌, List, [], ◌∷◌, ◌++◌, map, Option, none, some, length, take, drop,
  set, replicate, get_elem?, leb, ltb, ◌==◌, if◌then◌else◌, ◌≡◌, ◌≢◌, ◌⊎◌, inl, inr, refl, ◌∙◌, sym,
  ap, ap₂, subst, arith, append_assoc, append-nil, length-take, length-drop, length-append,
  drop-drop, take-append-drop, length-set, drop_all, take_all, take-length, drop-length, drop-take,
  take-take, take-set, drop-set, drop_get, All, All-take, All-drop, All-append, Bool-cases,
  Option-cases, ==_iff, ltb→lt, lt→ltb, le→not-ltb, not-ltb→le, length-map, get_of_drop,
  length-replicate,
}
use remote_way.Interpolate.Float.{F32}

-- `bytes` is the field `data`.
pub record GpuFrame : Type 0 where
  pub bytes : List ℕ
  pub width : ℕ
  pub height : ℕ
  pub stride : ℕ
  pub timestamp_ns : ℕ

unfoldable pub byte_size : GpuFrame → ℕ
byte_size f = length f.bytes

unfoldable pub pixel_count : GpuFrame → ℕ
pixel_count f = f.width * f.height

unfoldable pub same_dimensions : GpuFrame → GpuFrame → Bool
same_dimensions a b = (a.width == b.width) && (a.height == b.height) && (a.stride == b.stride)

pub data InterpolateError : Type 0 where
  no_backend device_lost : InterpolateError
  dimension_mismatch : ℕ → ℕ → ℕ → ℕ → InterpolateError
  invalid_factor : F32 → InterpolateError
  init_failed interpolate_failed : InterpolateError

pub data InterpolateResult {ℓ} (A : Type ℓ) : Type ℓ where
  ok : A → InterpolateResult A
  err : InterpolateError → InterpolateResult A

-- A backend of state `B`: a call may change the state, also when it fails. The name and the latency are left out.
pub record FrameInterpolator (B : Type 0) : Type 0 where
  pub interpolate : B → GpuFrame → GpuFrame → F32 → B × InterpolateResult GpuFrame
