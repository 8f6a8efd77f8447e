-- ===== src/Compress/Pipeline.antt =====
-- crates/remoteway-compress/src/pipeline.rs and the record of stats.rs that it fills. Wall-clock times
-- are arguments; `none` is a panic.
pub mod RoundTrip
use remote_way.Prelude.{
  ℕ, zero, suc, ◌+◌, ◌-◌, ◌*◌, ◌/◌, ◌%◌, ◌^◌, ◌≤◌, ◌<◌, min, max, bit_and, bit_or, bit_xor, Bool,
  true, false, not, ◌&&◌, ◌||◌, List, [], ◌∷◌, ◌++◌, map, Option, none, some, length, take, drop,
  set, replicate, get_elem?, leb, ltb, ◌==◌, if◌then◌else◌, ◌≡◌, ◌≢◌, ◌⊎◌, inl, inr, refl, ◌∙◌, sym,
  ap, ap₂, subst, arith, append_assoc, append-nil, length-take, length-drop, length-append,
  drop-drop, take-append-drop, length-set, drop_all, take_all, take-length, drop-length, drop-take,
  take-take, take-set, drop-set, drop_get, All, All-take, All-drop, All-append, Bool-cases,
  Option-cases, ==_iff, ltb→lt, lt→ltb, le→not-ltb, not-ltb→le, length-map,
}
use remote_way.Compress.Delta.{DamageRect, range, delta_encode_simd, delta_decode, ◌>>=◌}
use remote_way.Compress.Compressor.{
  Codecs, CompressorKind, CompressorError, Result, ok, err, compress, decompress,
}

pub record FrameStats : Type 0 where
  pub original_bytes : ℕ
  pub compressed_bytes : ℕ
  pub encode_time : ℕ
  pub compress_time : ℕ

-- `bytes` is the field `data`.
pub record CompressedFrame : Type 0 where
  pub bytes : List ℕ
  pub region_offsets : List ℕ
  pub region_sizes : List ℕ
  pub stats : FrameStats

abbrev pub default_stats : FrameStats
default_stats = record {
  original_bytes = 0;
  compressed_bytes = 0;
  encode_time = 0;
  compress_time = 0;
}

-- `reset`, which is also the default value.
abbrev pub empty_frame : CompressedFrame
empty_frame = record { bytes = []; region_offsets = []; region_sizes = []; stats = default_stats }

-- One slice of the delta for each region.
unfoldable pub region_slices : List ℕ → List DamageRect → ℕ → Option (List (List ℕ))
region_slices delta [] delta_offset = some []
region_slices delta (rect ∷ regions) delta_offset = do
  slice ← range delta delta_offset (delta_offset + rect.width * 4 * rect.height)
  rest ← region_slices delta regions (delta_offset + rect.width * 4 * rect.height)
  some (slice ∷ rest)

abbrev pub unwrap_or_empty : Result (List ℕ) → List ℕ
unwrap_or_empty (ok bytes) = bytes
unwrap_or_empty (err e) = []

-- `for blob in &compressed_regions`: offsets and sizes follow the layout of the bytes.
unfoldable pub stitch : List (List ℕ) → CompressedFrame → CompressedFrame
stitch [] out = out
stitch (blob ∷ blobs) out = stitch blobs (record out {
  region_offsets = out.region_offsets ++ (length out.bytes ∷ []);
  region_sizes = out.region_sizes ++ (length blob ∷ []);
  bytes = out.bytes ++ blob;
})

-- `Vec::resize(n, 0)`
abbrev pub resize_zero : ℕ → List ℕ → List ℕ
resize_zero n xs = take n xs ++ replicate (n - length xs) 0

module _ (c : Codecs) where
  unfoldable pub compress_frame_into :
      List ℕ → List ℕ → ℕ → List DamageRect → CompressorKind → ℕ → ℕ → Option CompressedFrame
  compress_frame_into current previous stride regions kind encode_time compress_time = do
    (delta, original_bytes) ← delta_encode_simd current previous stride regions []
    slices ← region_slices delta regions 0
    let out = stitch (map (λ d. unwrap_or_empty (compress c kind d)) slices) empty_frame
    some (record out {
      stats = record {
        original_bytes = original_bytes;
        compressed_bytes = length out.bytes;
        encode_time = encode_time;
        compress_time = compress_time;
      };
    })

  -- The blob of each region, from region `i` on.
  unfoldable pub region_blobs : CompressedFrame → List DamageRect → ℕ → Option (List (List ℕ))
  region_blobs compressed [] i = some []
  region_blobs compressed (rect ∷ regions) i = do
    start ← get_elem? compressed.region_offsets i
    size ← get_elem? compressed.region_sizes i
    blob ← range compressed.bytes start (start + size)
    rest ← region_blobs compressed regions (i + 1)
    some (blob ∷ rest)

  -- The deltas one after the other; the first error ends the loop.
  unfoldable pub flatten_deltas : CompressorKind → List (List ℕ) → List ℕ → Result (List ℕ)
  flatten_deltas kind [] scratch = ok scratch
  flatten_deltas kind (blob ∷ blobs) scratch = elim (decompress c kind blob) [
    | ok delta ↦ flatten_deltas kind blobs (scratch ++ delta)
    | err e ↦ err e
  ]

  abbrev pub decode_flat :
      List ℕ → ℕ → List DamageRect → List ℕ → Result (List ℕ) → Option (Result (List ℕ))
  decode_flat previous stride regions output (err e) = some (err e)
  decode_flat previous stride regions output (ok delta) = do
    output' ← delta_decode delta previous stride regions output
    some (ok output')

  unfoldable pub decompress_frame_into :
      CompressedFrame
      → List ℕ
      → ℕ
      → List DamageRect
      → List ℕ
      → CompressorKind
      → Option (Result (List ℕ))
  decompress_frame_into compressed previous stride regions output kind = do
    blobs ← region_blobs compressed regions 0
    decode_flat previous stride regions (resize_zero (length previous) output)
        (flatten_deltas kind blobs [])
