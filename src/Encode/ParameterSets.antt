-- ===== src/Encode/ParameterSets.antt =====
-- crates/remoteway-encode/src/backends: the sizes in the parameter sets of h264.rs and av1.rs. Fields
-- that do not depend on the picture's size are left out.
pub mod Sizes
use remote_way.Prelude.{
  ℕ, zero, suc, ◌+◌, ◌-◌, ◌*◌, ◌/◌, ◌%◌, ◌^◌, ◌≤◌, ◌<◌, max, leb, if◌then◌else◌, ◌≡◌, ◌≢◌, ◌⊎◌, inl,
  inr, refl, arith, Bool, true, false, Bool-cases,
}

-- `StdVideoH264SequenceParameterSet`; the cropping offsets are 0.
pub record Sps : Type 0 where
  pub pic_width_in_mbs_minus1 : ℕ
  pub pic_height_in_map_units_minus1 : ℕ

unfoldable pub build_sps : ℕ → ℕ → Sps
build_sps width height = record {
  pic_width_in_mbs_minus1 = width / 16 - 1;
  pic_height_in_map_units_minus1 = height / 16 - 1;
}

-- `leading_zeros` of a number of `w` bits.
abbrev pub leading_zeros : ℕ → ℕ → ℕ
leading_zeros zero n = 0
leading_zeros (suc w) n = let rest = leading_zeros w n in if leb (2 ^ w) n then 0 else suc rest

unfoldable pub bits_needed : ℕ → ℕ
bits_needed value = let v = max value 1 in max (32 - leading_zeros 32 (v - 1)) 1

-- `StdVideoAV1SequenceHeader`
pub record SeqHeader : Type 0 where
  pub frame_width_bits_minus_1 : ℕ
  pub frame_height_bits_minus_1 : ℕ
  pub max_frame_width_minus_1 : ℕ
  pub max_frame_height_minus_1 : ℕ

unfoldable pub build_seq_header : ℕ → ℕ → SeqHeader
unfolding bits_needed
build_seq_header width height = record {
  frame_width_bits_minus_1 = (bits_needed width - 1) % 2 ^ 8;
  frame_height_bits_minus_1 = (bits_needed height - 1) % 2 ^ 8;
  max_frame_width_minus_1 = (width - 1) % 2 ^ 16;
  max_frame_height_minus_1 = (height - 1) % 2 ^ 16;
}
