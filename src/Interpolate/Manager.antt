-- ===== src/Interpolate/Manager.antt =====
-- crates/remoteway-interpolate/src/manager.rs: the window of two frames. The backend is a parameter.
pub mod Window
use remote_way.Prelude.{
  ℕ, zero, suc, ◌+◌, ◌-◌, ◌*◌, ◌/◌, ◌%◌, ◌^◌, ◌≤◌, ◌<◌, min, max, bit_and, bit_or, bit_xor, Bool,
  true, false, not, ◌&&◌, ◌||◌, List, [], ◌∷◌, ◌++◌, map, Option, none, some, length, take, drop,
  set, replicate, get_elem?, leb, ltb, ◌==◌, if◌then◌else◌, ◌≡◌, ◌≢◌, ◌⊎◌, inl, inr, refl, ◌∙◌, sym,
  ap, ap₂, subst, arith, append_assoc, append-nil, length-take, length-drop, length-append,
  drop-drop, take-append-drop, length-set, drop_all, take_all, take-length, drop-length, drop-take,
  take-take, take-set, drop-set, drop_get, All, All-take, All-drop, All-append, Bool-cases,
  Option-cases, ==_iff, ltb→lt, lt→ltb, le→not-ltb, not-ltb→le, length-map, get_of_drop,
  length-replicate,
}
use mathlib.Core.Option
use remote_way.Prelude.Table.{is_some}
use remote_way.Interpolate.Float.{F32}
use remote_way.Interpolate.{GpuFrame, InterpolateResult, ok, err, FrameInterpolator}

-- `B` is the state of the backend.
pub record InterpolationManager (B : Type 0) : Type 0 where
  pub backend : B
  pub anchor : Option GpuFrame
  pub target : Option GpuFrame
  pub frame_count : ℕ
  pub interpolated_count : ℕ
  pub force_reset : Bool

module _ {B : Type 0} where
  unfoldable pub new_manager : B → InterpolationManager B
  new_manager backend = record {
    backend = backend;
    anchor = none;
    target = none;
    frame_count = 0;
    interpolated_count = 0;
    force_reset = false;
  }

  unfoldable pub push_frame : InterpolationManager B → GpuFrame → InterpolationManager B
  push_frame m frame = record m {
    anchor = if m.force_reset then none else m.target;
    force_reset = false;
    target = some frame;
    frame_count = (m.frame_count + 1) % 2 ^ 64;
  }

  unfoldable pub can_interpolate : InterpolationManager B → Bool
  can_interpolate m = is_some m.anchor && is_some m.target

  unfoldable pub reset_anchor : InterpolationManager B → InterpolationManager B
  reset_anchor m = record m { force_reset = true }

  unfoldable pub clear : InterpolationManager B → InterpolationManager B
  clear m = record m {
    anchor = none;
    target = none;
    frame_count = 0;
    interpolated_count = 0;
    force_reset = false;
  }

  unfoldable pub anchor_timestamp_ns : InterpolationManager B → Option ℕ
  anchor_timestamp_ns m = Option.map (λ f. f.timestamp_ns) m.anchor

  unfoldable pub target_timestamp_ns : InterpolationManager B → Option ℕ
  target_timestamp_ns m = Option.map (λ f. f.timestamp_ns) m.target

  -- What a call of the backend leaves.
  abbrev pub after_call :
      InterpolationManager B
      → B × InterpolateResult GpuFrame
      → InterpolationManager B × InterpolateResult (Option GpuFrame)
  after_call m (backend, ok frame) = (
    record m { backend = backend; interpolated_count = (m.interpolated_count + 1) % 2 ^ 64 },
    ok (some frame),
  )
  after_call m (backend, err x) = (record m { backend = backend }, err x)

  abbrev pub between :
      FrameInterpolator B
      → InterpolationManager B
      → F32
      → Option GpuFrame
      → Option GpuFrame
      → InterpolationManager B × InterpolateResult (Option GpuFrame)
  between interpolator m t (some anchor) (some target) =
      after_call m (interpolator.interpolate m.backend anchor target t)
  between interpolator m t (some anchor) none = (m, ok none)
  between interpolator m t none target = (m, ok none)

  unfoldable pub interpolate :
      FrameInterpolator B
      → InterpolationManager B
      → F32
      → InterpolationManager B × InterpolateResult (Option GpuFrame)
  interpolate interpolator m t = between interpolator m t m.anchor m.target
