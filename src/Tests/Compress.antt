-- ===== src/Tests/Compress.antt =====
-- Delta, codecs and the pipeline at concrete inputs: a frame of 2 × 3 pixels.
use remote_way.Prelude.{
  get_elem?_past, ℕ, ◌≡◌, refl, sym, ◌∙◌, List, [], ◌∷◌, ◌++◌, Option, none, some, length, false,
  All, arith, get_elem?, if◌then◌else◌, replicate,
}
use remote_way.Proto.Wire.{IsU8}
use remote_way.Compress.Delta.{
  DamageRect, delta_encode_simd, delta_encode_scalar, delta_decode, xor_into_vec_simd, xor_bytes,
}
use remote_way.Compress.Delta.Rows.{xor_into_vec_simd-xor}
use remote_way.Compress.Delta.Encode.{delta_encode_simd-scalar, RegionsFit}
use remote_way.Compress.Delta.Paint.{paint, covered, get_elem?-paint}
use remote_way.Compress.Delta.Decode.{delta_decode-delta_encode, delta_round_trip}
use remote_way.Session.Stripes.{stripe_full_frame}
use remote_way.Session.Stripes.Cover.{
  stripe_full_frame-Stacked, Stacked-RegionsFit, covered-stripe_full_frame,
}
use native.Mathlib.Decide.{dec_lt}
use remote_way.Compress.Compressor.{Codecs, Lossless, CompressorKind, ok}
use remote_way.Compress.Pipeline.{CompressedFrame, compress_frame_into, decompress_frame_into}
use remote_way.Compress.Pipeline.RoundTrip.{decompress_frame_into-compress_frame_into}

abbrev previous : List ℕ
previous =
    1 ∷ 2 ∷ 3 ∷ 4 ∷ 5 ∷ 6 ∷ 7 ∷ 8 ∷ 9 ∷ 10 ∷ 11 ∷ 12 ∷ 13 ∷ 14 ∷ 15 ∷ 16 ∷ 17 ∷ 18 ∷ 19 ∷ 20 ∷ 21
    ∷ 22 ∷ 23 ∷ 24 ∷ []

-- The second pixels of the last two rows changed.
abbrev current : List ℕ
current =
    1 ∷ 2 ∷ 3 ∷ 4 ∷ 5 ∷ 6 ∷ 7 ∷ 8 ∷ 9 ∷ 10 ∷ 11 ∷ 12 ∷ 200 ∷ 201 ∷ 202 ∷ 16 ∷ 17 ∷ 18 ∷ 19 ∷ 20 ∷ 7
    ∷ 7 ∷ 7 ∷ 255 ∷ []

abbrev regions : List DamageRect
regions = record { x = 1; y = 1; width = 1; height = 2 } ∷ []

current-IsU8 : All IsU8 current
current-IsU8 = ground arith

previous-IsU8 : All IsU8 previous
previous-IsU8 = ground arith

regions-Fit : RegionsFit 8 24 regions
regions-Fit = ground arith

xor_into_vec_simd-xor_example :
    xor_into_vec_simd (current ++ current) (previous ++ previous) (9 ∷ [])
    ≡ some ((9 ∷ []) ++ xor_bytes (current ++ current) (previous ++ previous))
xor_into_vec_simd-xor_example =
    xor_into_vec_simd-xor (current ++ current) (previous ++ previous) (9 ∷ []) refl

delta_encode_simd-scalar_example :
    delta_encode_simd current previous 8 regions []
    ≡ delta_encode_scalar current previous 8 regions []
delta_encode_simd-scalar_example = delta_encode_simd-scalar current previous 8 regions []

get_elem?-paint_example :
    get_elem? (paint current 8 regions previous) 13
    ≡ (if covered 8 regions 13 then get_elem? current 13 else get_elem? previous 13)
get_elem?-paint_example = get_elem?-paint current 8 regions previous 13 refl regions-Fit

delta_decode-delta_encode_example :
    (delta : List ℕ) × (delta_encode_simd current previous 8 regions []
      ≡ some (delta, length delta))
    × (delta_decode delta previous 8 regions (replicate 24 9)
        ≡ some (paint current 8 regions previous))
delta_decode-delta_encode_example =
    delta_decode-delta_encode current previous (replicate 24 9) 8 regions refl refl current-IsU8
      previous-IsU8 regions-Fit

-- A codec that puts a byte in front, and one that does nothing.
abbrev pop_byte : List ℕ → Option (List ℕ)
pop_byte [] = none
pop_byte (b ∷ bytes) = some bytes

abbrev pub codecs : Codecs
codecs = record {
  lz4_compress = λ bytes. 4 ∷ bytes;
  lz4_decompress = pop_byte;
  zstd_encode = λ bytes. some bytes;
  zstd_decode = λ bytes. some bytes;
}

pub codecs-Lossless : Lossless codecs
codecs-Lossless = record {
  lz4_back = λ bytes. refl;
  zstd_back = λ bytes packed e. sym e;
  zstd_total = λ bytes. (bytes, refl);
}

decompress_frame_into-compress_frame_into_example :
    (f : CompressedFrame) × (compress_frame_into codecs current previous 8 regions
        CompressorKind.lz4 1 2
      ≡ some f)
    × (decompress_frame_into codecs f previous 8 regions (replicate 24 9) CompressorKind.lz4
        ≡ some (ok (paint current 8 regions previous)))
decompress_frame_into-compress_frame_into_example =
    decompress_frame_into-compress_frame_into codecs codecs-Lossless CompressorKind.lz4 current
      previous (replicate 24 9) 8 regions 1 2 refl current-IsU8 previous-IsU8 regions-Fit

stripes-agree :
    (k : ℕ)
    → covered 8 (stripe_full_frame 2 3 2) k ≡ false
    → get_elem? current k ≡ get_elem? previous k
stripes-agree k out = elim (dec_lt k 24) [
  | yes inside ↦ absurd (let all = covered-stripe_full_frame 2 3 2 k (omega arith) in cc)
  | no past ↦ get_elem?_past current k (omega arith) ∙ sym (get_elem?_past previous k (omega arith))
]

delta_round_trip_example :
    (delta : List ℕ) × (delta_encode_simd current previous 8 (stripe_full_frame 2 3 2) []
      ≡ some (delta, length delta))
    × (delta_decode delta previous 8 (stripe_full_frame 2 3 2) (replicate 24 9) ≡ some current)
delta_round_trip_example =
    delta_round_trip current previous (replicate 24 9) 8 (stripe_full_frame 2 3 2) refl refl
      current-IsU8 previous-IsU8
      (Stacked-RegionsFit 2 0 3 (stripe_full_frame 2 3 2) (stripe_full_frame-Stacked 2 3 2).1)
      stripes-agree
