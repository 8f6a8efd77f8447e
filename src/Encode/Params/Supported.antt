-- ===== src/Encode/Params/Supported.antt =====
-- What `validate_against` accepts, said field by field.
use remote_way.Prelude.{
  ℕ, zero, suc, ◌%◌, ◌≤◌, ◌<◌, bit_and, Bool, true, false, not, ◌&&◌, ◌||◌, Option, none, ltb, ◌==◌,
  subst, ◌≡◌, ◌⊎◌, ◌↔◌, refl, arith, le→not-ltb,
}
use remote_way.Prelude.Table.{is_some}
use remote_way.Encode.Params.{
  VideoCodec, Modes, VideoEncodeCapabilities, RateControl, EncodeParams, Outcome, ok, same_codec,
  reject_if, contains_mode, out_of_range, misaligned, to_vk_mode, validate_against,
}

-- A granularity of 0 asks for nothing.
pub data Aligned : ℕ → ℕ → Type 0 where
  any : (value : ℕ) → Aligned zero value
  multiple : (n value : ℕ) → value % suc n ≡ 0 → Aligned (suc n) value

-- What the capabilities ask of the parameters.
pub record Supported (vk : Modes) (p : EncodeParams) (caps : VideoEncodeCapabilities) : Type 0 where
  pub same : caps.codec ≡ p.codec
  pub positive : (0 < p.width) × (0 < p.height)
  pub at_least : (caps.min_coded_extent.0 ≤ p.width) × (caps.min_coded_extent.1 ≤ p.height)
  pub at_most : (p.width ≤ caps.max_coded_extent.0) × (p.height ≤ caps.max_coded_extent.1)
  pub width_aligned : Aligned caps.picture_access_granularity.0 p.width
  pub height_aligned : Aligned caps.picture_access_granularity.1 p.height
  pub mode :
      bit_and caps.rate_control_modes (to_vk_mode vk p.rate_control) ≡ to_vk_mode vk p.rate_control
  pub refresh : (p.intra_refresh_period ≡ none) ⊎ (caps.supports_intra_refresh ≡ true)
  pub qp : (n : ℕ) → p.rate_control ≡ RateControl.constant_qp n → n ≤ 255
  pub rate : 0 < p.frame_rate.1

passes : (b : Bool) (r : Outcome (Unit {0})) → reject_if b r ≡ ok tt → (b ≡ false) × (r ≡ ok tt)
unfolding reject_if
passes true r h = cc
passes false r h = (refl, h)

lets_pass : (b : Bool) (r : Outcome (Unit {0})) → b ≡ false → r ≡ ok tt → reject_if b r ≡ ok tt
unfolding reject_if
lets_pass b r e h = rw e h

same_codec-eq : (a b : VideoCodec) → not (same_codec a b) ≡ false → a ≡ b
same_codec-eq a b h = ground arith

same_codec_refl : (a : VideoCodec) → not (same_codec a a) ≡ false
same_codec_refl a = ground arith

misaligned-Aligned : (g v : ℕ) → misaligned g v ≡ false → Aligned g v
misaligned-Aligned zero v h = Aligned.any v
misaligned-Aligned (suc n) v h = Aligned.multiple n v (ground arith)

misaligned_of_Aligned : (g v : ℕ) → Aligned g v → misaligned g v ≡ false
misaligned_of_Aligned _ _ (Aligned.any v) = refl
misaligned_of_Aligned _ _ (Aligned.multiple n v e) = rw e refl

out_of_range-le :
    (r : RateControl) → out_of_range r ≡ false → (n : ℕ) → r ≡ RateControl.constant_qp n → n ≤ 255
out_of_range-le (RateControl.constant_qp m) h n e = ground arith
out_of_range-le (RateControl.cbr _) h n e = cc
out_of_range-le (RateControl.vbr _ _) h n e = cc

in_range :
    (r : RateControl) → ((n : ℕ) → r ≡ RateControl.constant_qp n → n ≤ 255) → out_of_range r ≡ false
in_range (RateControl.constant_qp n) f = le→not-ltb 255 n (f n refl)
in_range (RateControl.cbr _) f = refl
in_range (RateControl.vbr _ _) f = refl

refresh_passes :
    {o : Option ℕ} {b : Bool} → (is_some o && not b ≡ false) ↔ ((o ≡ none) ⊎ (b ≡ true))
refresh_passes {o} {b} = ground arith

zero_passes : (w h : ℕ) → (0 < w) × (0 < h) → (w == 0) || (h == 0) ≡ false
zero_passes w h (w0, h0) = ground arith

zero_passes_one : (n : ℕ) → 0 < n → (n == 0) ≡ false
zero_passes_one n h = ground arith

within_range :
    (w h wa ha wz hz : ℕ)
    → (wa ≤ w) × (ha ≤ h)
    → (w ≤ wz) × (h ≤ hz)
    → ltb w wa || ltb h ha || ltb wz w || ltb hz h ≡ false
within_range w h wa ha wz hz (a, b) (c, d) = ground arith

mode_passes :
    (modes wanted : ℕ) → bit_and modes wanted ≡ wanted → not (contains_mode modes wanted) ≡ false
mode_passes modes wanted e = ground arith

accepted_is_Supported :
    (vk : Modes) (p : EncodeParams) (caps : VideoEncodeCapabilities)
    → validate_against vk p caps ≡ ok tt
    → Supported vk p caps
unfolding validate_against
accepted_is_Supported vk p caps h =
    let (codec, h1) = passes _ _ h in
    let (zero_dim, h2) = passes _ _ h1 in
    let (range, h3) = passes _ _ h2 in
    let (across, h4) = passes _ _ h3 in
    let (down, h5) = passes _ _ h4 in
    let (modes, h6) = passes _ _ h5 in
    let (refreshing, h7) = passes _ _ h6 in
    let (quantiser, h8) = passes _ _ h7 in
    let (denominator, _) = passes _ _ h8 in
    record {
      same = same_codec-eq _ _ codec;
      positive = (ground arith, ground arith);
      at_least = (ground arith, ground arith);
      at_most = (ground arith, ground arith);
      width_aligned = misaligned-Aligned _ _ across;
      height_aligned = misaligned-Aligned _ _ down;
      mode = ground arith;
      refresh = refresh_passes.0 refreshing;
      qp = out_of_range-le _ quantiser;
      rate = ground arith;
    }

accepted_of_Supported :
    (vk : Modes) (p : EncodeParams) (caps : VideoEncodeCapabilities)
    → Supported vk p caps
    → validate_against vk p caps ≡ ok tt
unfolding validate_against
accepted_of_Supported vk p caps f =
    let codec =
      subst (λ c. not (same_codec caps.codec c) ≡ false) f.same (same_codec_refl caps.codec) in
    lets_pass _ _ codec (
      lets_pass _ _ (zero_passes p.width p.height f.positive) (
        lets_pass _ _ (within_range p.width p.height _ _ _ _ f.at_least f.at_most) (
          lets_pass _ _ (misaligned_of_Aligned _ _ f.width_aligned) (
            lets_pass _ _ (misaligned_of_Aligned _ _ f.height_aligned) (
              lets_pass _ _ (mode_passes _ _ f.mode) (
                lets_pass _ _ (refresh_passes.1 f.refresh) (
                  lets_pass _ _ (in_range _ f.qp)
                    (lets_pass _ _ (zero_passes_one p.frame_rate.1 f.rate) refl))))))))

-- Validation accepts the parameters exactly when the capabilities support them: the codec is the one
-- described, both dimensions are positive, within the device's range and aligned to its granularity,
-- the rate control is among its modes, intra refresh is only asked of a device that has it, a
-- constant quantiser is at most 255, and the frame rate's denominator is not 0.
pub validate_against-Supported :
    (vk : Modes) (p : EncodeParams) (caps : VideoEncodeCapabilities)
    → (validate_against vk p caps ≡ ok tt) ↔ Supported vk p caps
validate_against-Supported vk p caps =
    (accepted_is_Supported vk p caps, accepted_of_Supported vk p caps)
