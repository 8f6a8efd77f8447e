-- ===== src/Encode/ParameterSets/Sizes.antt =====
-- The sizes that the parameter sets give, against the picture's.
use native.Mathlib.Nat.{pow-le-pow_right, mod-mod_of_dvd, dvd_of_mod-eq-zero}
use remote_way.Prelude.{
  ℕ, zero, suc, ◌+◌, ◌-◌, ◌*◌, ◌/◌, ◌%◌, ◌^◌, ◌≤◌, ◌<◌, max, leb, ltb, ◌≡◌, ◌≢◌, inl, inr, refl,
  arith, true, false, Bool-cases, ltb→lt, not-ltb→le, leb→le, not-leb→lt,
}
use remote_way.Encode.Params.{Modes, EncodeParams, VideoEncodeCapabilities}
use remote_way.Encode.Params.Supported.{Supported, Aligned}
use remote_way.Encode.ParameterSets.{build_sps, leading_zeros, bits_needed, build_seq_header}

exponent_lt : (w k : ℕ) → 2 ^ w < 2 ^ k → w < k
exponent_lt w k h = elim (Bool-cases (ltb w k)) [
  | inl less ↦ ltb→lt w k less
  | inr more ↦ omega (arith, h, pow-le-pow_right {n = 2} (omega arith) (not-ltb→le w k more))
]

-- How many bits a number of at most `w` bits has.
bits : ℕ → ℕ → ℕ
bits w n = w - leading_zeros w n

bits_high : (w n : ℕ) → leb (2 ^ w) n ≡ true → bits (suc w) n ≡ suc w
unfolding bits
bits_high w n h = rw h (omega arith)

bits_low : (w n : ℕ) → leb (2 ^ w) n ≡ false → bits (suc w) n ≡ bits w n
unfolding bits
bits_low w n h = rw h (omega arith)

bits-lt : (w n : ℕ) → n < 2 ^ w → n < 2 ^ bits w n
unfolding bits
bits-lt zero n h = h
bits-lt (suc w) n h = elim (Bool-cases (leb (2 ^ w) n)) [
  | inl high ↦ rw (bits_high w n high) h
  | inr low ↦ rw (bits_low w n low) (bits-lt w n (not-leb→lt (2 ^ w) n low))
]

-- Fewer bits do not hold it.
bits-le : (w n k : ℕ) → n < 2 ^ k → bits w n ≤ k
unfolding bits
bits-le zero n k h = omega arith
bits-le (suc w) n k h = elim (Bool-cases (leb (2 ^ w) n)) [
  | inl high ↦ rw (bits_high w n high) (exponent_lt w k (omega (arith, h, leb→le (2 ^ w) n high)))
  | inr low ↦ rw (bits_low w n low) (bits-le w n k h)
]

-- A dimension that is written as one less in the fewest bits that hold it, at least one.
abbrev pub Coded : ℕ → ℕ → ℕ → Type 0
Coded size size_minus_1 bits_minus_1 =
    (size_minus_1 + 1 ≡ size)
    × (size_minus_1 < 2 ^ (bits_minus_1 + 1))
    × ((k : ℕ) → 0 < k → size_minus_1 < 2 ^ k → bits_minus_1 + 1 ≤ k)

bits_needed-eq : (size : ℕ) → 0 < size → bits_needed size ≡ max (bits 32 (size - 1)) 1
unfolding bits_needed bits
bits_needed-eq size h = let same : max size 1 ≡ size = omega (arith, h) in rw same refl

coded :
    (size : ℕ)
    → 0 < size
    → size ≤ 2 ^ 16
    → Coded size ((size - 1) % 2 ^ 16) ((bits_needed size - 1) % 2 ^ 8)
coded size h below =
    let fewest = bits_needed-eq size h in
    let none_lost : (size - 1) % 2 ^ 16 ≡ size - 1 = omega (arith, below) in
    let few : bits 32 (size - 1) ≤ 32 = bits-le 32 (size - 1) 32 (omega (arith, below)) in
    let width : (bits_needed size - 1) % 2 ^ 8 + 1 ≡ max (bits 32 (size - 1)) 1 =
      omega (arith, fewest, few) in
    rw (width, none_lost)
      (
        omega (arith, h),
        omega (
          arith,
          bits-lt 32 (size - 1) (omega (arith, below)),
          pow-le-pow_right {n = 2} (omega arith) {i = bits 32 (size - 1)}
              {j = max (bits 32 (size - 1)) 1} (omega arith),
        ),
        λ k k0 holds. omega (arith, k0, bits-le 32 (size - 1) k holds),
      )

-- The AV1 sequence header holds both dimensions of a picture of at most 65,536 pixels a side, each in
-- the fewest bits.
build_seq_header-sizes :
    (width height : ℕ)
    → 0 < width
    → 0 < height
    → width ≤ 2 ^ 16
    → height ≤ 2 ^ 16
    → let h = build_seq_header width height in
      Coded width h.max_frame_width_minus_1 h.frame_width_bits_minus_1
      × Coded height h.max_frame_height_minus_1 h.frame_height_bits_minus_1
unfolding build_seq_header
build_seq_header-sizes width height w h w_max h_max = (coded width w w_max, coded height h h_max)

-- How far the macroblocks of the H.264 parameter sets cover a dimension.
abbrev pub Covers : ℕ → ℕ → ℕ → Type 0
Covers granularity size mbs_minus1 =
    ((mbs_minus1 + 1) * 16 ≤ size)
    × (size < (mbs_minus1 + 1) * 16 + 16)
    × (granularity ≢ 0 → granularity % 16 ≡ 0 → (mbs_minus1 + 1) * 16 ≡ size)

covers :
    (granularity size : ℕ)
    → 16 ≤ size
    → Aligned granularity size
    → Covers granularity size (size / 16 - 1)
covers _ _ h (Aligned.any size) =
    (omega (arith, h), omega (arith, h), λ never _. absurd (never refl))
covers _ _ h (Aligned.multiple n size e) = (
  omega (arith, h),
  omega (arith, h),
  λ _ sixteenth. omega (arith, h, e, mod-mod_of_dvd 16 size (dvd_of_mod-eq-zero 16 sixteenth)),
)

-- Of supported parameters of at least 16 pixels a side, the macroblocks that the H.264 parameter sets
-- give leave out less than 16 rows and columns, and none where the device's granularity is a
-- multiple of 16.
build_sps-Supported :
    (vk : Modes) (p : EncodeParams) (caps : VideoEncodeCapabilities)
    → Supported vk p caps
    → 16 ≤ p.width
    → 16 ≤ p.height
    → let s = build_sps p.width p.height in
      Covers caps.picture_access_granularity.0 p.width s.pic_width_in_mbs_minus1
      × Covers caps.picture_access_granularity.1 p.height s.pic_height_in_map_units_minus1
unfolding build_sps
build_sps-Supported vk p caps f w h =
    (covers _ p.width w f.width_aligned, covers _ p.height h f.height_aligned)
