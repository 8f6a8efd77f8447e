-- ===== src/Encode/Params.antt =====
-- crates/remoteway-encode/src/encoder.rs, the parameters of an encoder and their validation, with the
-- capabilities of crates/remoteway-vulkan/src/video.rs. The messages of the errors are left out.
pub mod Supported
use remote_way.Prelude.Table.{is_some}
use remote_way.Prelude.{
  ℕ, zero, suc, ◌%◌, ◌≤◌, ◌<◌, bit_and, Bool, true, false, not, ◌&&◌, ◌||◌, Option, none, some, leb,
  ltb, ◌==◌, if◌then◌else◌, ◌≡◌, ◌≢◌, ◌↔◌, refl, arith,
}

pub data VideoCodec : Type 0 where
  h264 h265 av1 : VideoCodec

-- The bits of `vk::VideoEncodeRateControlModeFlagsKHR`, which the `ash` crate gives.
pub record Modes : Type 0 where
  pub disabled : ℕ
  pub cbr : ℕ
  pub vbr : ℕ

pub record VideoEncodeCapabilities : Type 0 where
  pub codec : VideoCodec
  pub max_coded_extent : ℕ × ℕ
  pub min_coded_extent : ℕ × ℕ
  pub picture_access_granularity : ℕ × ℕ
  pub max_dpb_slots : ℕ
  pub max_active_reference_pictures : ℕ
  pub rate_control_modes : ℕ
  pub supports_intra_refresh : Bool
  pub supports_quantization_map : Bool

pub data RateControl : Type 0 where
  constant_qp : ℕ → RateControl
  cbr : ℕ → RateControl
  vbr : ℕ → ℕ → RateControl

pub record EncodeParams : Type 0 where
  pub codec : VideoCodec
  pub width : ℕ
  pub height : ℕ
  pub frame_rate : ℕ × ℕ
  pub rate_control : RateControl
  pub intra_refresh_period : Option ℕ

pub data EncodeError : Type 0 where
  vulkan unsupported_codec invalid_params not_ready submit_failed readback_failed : EncodeError

pub data Outcome {ℓ} (A : Type ℓ) : Type ℓ where
  ok : A → Outcome A
  err : EncodeError → Outcome A

abbrev pub same_codec : VideoCodec → VideoCodec → Bool
same_codec VideoCodec.h264 VideoCodec.h264 = true
same_codec VideoCodec.h265 VideoCodec.h265 = true
same_codec VideoCodec.av1 VideoCodec.av1 = true
same_codec _ _ = false

-- `contains` of bitflags: every bit of `wanted` is in `modes`.
abbrev pub contains_mode : ℕ → ℕ → Bool
contains_mode modes wanted = bit_and modes wanted == wanted

abbrev pub out_of_range : RateControl → Bool
out_of_range (RateControl.constant_qp qp) = ltb 255 qp
out_of_range _ = false

-- `!value.is_multiple_of(step)` under the guard `step > 0`.
abbrev pub misaligned : ℕ → ℕ → Bool
misaligned zero value = false
misaligned (suc n) value = not (value % suc n == 0)

-- A test of `validate_against`, with the early return.
unfoldable pub reject_if : Bool → Outcome (Unit {0}) → Outcome (Unit {0})
reject_if true rest = err invalid_params
reject_if false rest = rest

module _ (vk : Modes) where
  abbrev pub to_vk_mode : RateControl → ℕ
  to_vk_mode (RateControl.constant_qp _) = vk.disabled
  to_vk_mode (RateControl.cbr _) = vk.cbr
  to_vk_mode (RateControl.vbr _ _) = vk.vbr

  unfoldable pub validate_against : EncodeParams → VideoEncodeCapabilities → Outcome (Unit {0})
  validate_against p caps = reject_if (not (same_codec caps.codec p.codec)) (
      reject_if ((p.width == 0) || (p.height == 0)) (
        reject_if
          (ltb p.width caps.min_coded_extent.0
            || ltb p.height caps.min_coded_extent.1
            || ltb caps.max_coded_extent.0 p.width
            || ltb caps.max_coded_extent.1 p.height)
          (reject_if (misaligned caps.picture_access_granularity.0 p.width) (
            reject_if (misaligned caps.picture_access_granularity.1 p.height) (
              reject_if (not (contains_mode caps.rate_control_modes (to_vk_mode p.rate_control))) (
                reject_if (is_some p.intra_refresh_period && not caps.supports_intra_refresh) (
                  reject_if (out_of_range p.rate_control)
                    (reject_if (p.frame_rate.1 == 0) (ok tt)))))))))
