-- ===== src/Compress/Pipeline/RoundTrip.antt =====
-- What the pipeline compresses it decompresses to the frame.
use remote_way.Prelude.{
  ℕ, suc, ◌+◌, ◌-◌, ◌*◌, ◌≤◌, List, [], ◌∷◌, ◌++◌, map, some, length, take, drop, replicate, ◌≡◌,
  refl, ◌∙◌, sym, ap, arith, append_assoc, append-nil, length-take, length-drop, length-append,
  drop-drop, take-length, drop-length, All, length-map, get_of_drop, length-replicate,
}
use remote_way.Proto.Wire.{IsU8}
use remote_way.Compress.Delta.{DamageRect, range}
use remote_way.Compress.Delta.Rows.{range-some}
use remote_way.Compress.Delta.Encode.{
  rows_delta, regions_delta, RegionsFit, length-rows_delta, delta_encode-delta,
}
use remote_way.Compress.Delta.Decode.{decode-regions_delta}
use remote_way.Compress.Delta.Paint.{paint}
use remote_way.Compress.Compressor.{
  Codecs, Lossless, CompressorKind, ok, compress, decompress, decompress-compress,
}
use remote_way.Compress.Pipeline.{
  CompressedFrame, empty_frame, region_slices, unwrap_or_empty, stitch, resize_zero,
  compress_frame_into, region_blobs, flatten_deltas, decompress_frame_into,
}

-- The lists one after the other, and where each starts when the first starts at `base`.
abbrev pub concat : List (List ℕ) → List ℕ
concat [] = []
concat (b ∷ bs) = b ++ concat bs

abbrev pub starts : ℕ → List (List ℕ) → List ℕ
starts base [] = []
starts base (b ∷ bs) = base ∷ starts (base + length b) bs

abbrev pub sizes : List (List ℕ) → List ℕ
sizes [] = []
sizes (b ∷ bs) = length b ∷ sizes bs

unfoldable pub region_deltas : List ℕ → List ℕ → ℕ → List DamageRect → List (List ℕ)
region_deltas current previous stride [] = []
region_deltas current previous stride (rect ∷ regions) =
    rows_delta current previous stride rect rect.height 0
    ∷ region_deltas current previous stride regions

concat-region_deltas :
    (current previous : List ℕ) (stride : ℕ) (regions : List DamageRect)
    → concat (region_deltas current previous stride regions)
      ≡ regions_delta current previous stride regions
unfolding region_deltas regions_delta
concat-region_deltas current previous stride [] = refl
concat-region_deltas current previous stride (rect ∷ regions) =
    rw (concat-region_deltas current previous stride regions)

length-region_deltas :
    (current previous : List ℕ) (stride : ℕ) (regions : List DamageRect)
    → length (region_deltas current previous stride regions) ≡ length regions
unfolding region_deltas
length-region_deltas current previous stride [] = refl
length-region_deltas current previous stride (rect ∷ regions) =
    ap suc (length-region_deltas current previous stride regions)

-- The bytes from an offset on begin with `front`.
pub range_front :
    (bytes front rest : List ℕ) (from to : ℕ)
    → from ≤ length bytes
    → drop from bytes ≡ front ++ rest
    → to ≡ from + length front
    → (range bytes from to ≡ some front) × (drop to bytes ≡ rest) × (to ≤ length bytes)
range_front bytes front rest from to h d e =
    let room : to ≤ length bytes =
      omega (arith, length-drop from bytes, ap length d, length-append front rest) in
    let width : to - from ≡ length front = omega arith in
    (
      range-some bytes from to (omega arith) room
          ∙ rw (width, d) (ap some (take-length front rest (length front) refl)),
      sym (drop-drop from (length front) to bytes e)
          ∙ rw d (drop-length front rest (length front) refl),
      room,
    )

region_slices-region_deltas :
    (current previous delta : List ℕ) (stride : ℕ) (regions : List DamageRect) (off : ℕ)
    → length current ≡ length previous
    → RegionsFit stride (length previous) regions
    → off ≤ length delta
    → drop off delta ≡ regions_delta current previous stride regions
    → region_slices delta regions off ≡ some (region_deltas current previous stride regions)
unfolding region_slices region_deltas regions_delta
region_slices-region_deltas current previous delta stride [] off same fit h d = refl
region_slices-region_deltas current previous delta stride (rect ∷ regions) off same fit h d =
    let here = rows_delta current previous stride rect rect.height 0 in
    let width = length-rows_delta current previous stride same rect rect.height 0 fit.0 in
    let (found, next, room) =
      range_front delta here (regions_delta current previous stride regions) off
        (off + rect.width * 4 * rect.height) h d (omega (arith, width)) in
    rw (
      found,
      region_slices-region_deltas current previous delta stride regions _ same fit.1 room next,
    )

stitch-parts :
    (blobs : List (List ℕ)) (out : CompressedFrame)
    → ((stitch blobs out).bytes ≡ out.bytes ++ concat blobs)
      × ((stitch blobs out).region_offsets ≡ out.region_offsets ++ starts (length out.bytes) blobs)
      × ((stitch blobs out).region_sizes ≡ out.region_sizes ++ sizes blobs)
unfolding stitch
stitch-parts [] out = (sym (append-nil _), sym (append-nil _), sym (append-nil _))
stitch-parts (b ∷ blobs) out =
    let (x, y, z) = stitch-parts blobs (record out {
      region_offsets = out.region_offsets ++ (length out.bytes ∷ []);
      region_sizes = out.region_sizes ++ (length b ∷ []);
      bytes = out.bytes ++ b;
    }) in
    (
      x ∙ append_assoc out.bytes b _,
      y ∙ rw (length-append out.bytes b) (append_assoc out.region_offsets _ _),
      z ∙ append_assoc out.region_sizes _ _,
    )

-- A frame whose offsets and sizes describe its bytes.
region_blobs-blobs :
    (f : CompressedFrame) (regions : List DamageRect) (blobs : List (List ℕ)) (i base : ℕ)
    → length blobs ≡ length regions
    → drop i f.region_offsets ≡ starts base blobs
    → drop i f.region_sizes ≡ sizes blobs
    → drop base f.bytes ≡ concat blobs
    → base ≤ length f.bytes
    → (c : Codecs) → region_blobs c f regions i ≡ some blobs
unfolding region_blobs
region_blobs-blobs f [] [] i base n o s d h c = refl
region_blobs-blobs f [] (b ∷ blobs) i base n o s d h c = absurd (omega arith)
region_blobs-blobs f (rect ∷ regions) [] i base n o s d h c = absurd (omega arith)
region_blobs-blobs f (rect ∷ regions) (b ∷ blobs) i base n o s d h c =
    let (start, offsets) = get_of_drop f.region_offsets i _ _ o in
    let (size, rest_sizes) = get_of_drop f.region_sizes i _ _ s in
    let (found, next, room) =
      range_front f.bytes b (concat blobs) base (base + length b) h d refl in
    rw (
      start,
      size,
      found,
      region_blobs-blobs f regions blobs (i + 1) (base + length b) (omega arith) offsets rest_sizes
          next room c,
    )

-- The frame's table describes its bytes, which are these blobs, one for each region.
pub record Describes (f : CompressedFrame) (regions : List DamageRect) (blobs : List (List ℕ))
    : Type 0 where
  pub count : length blobs ≡ length regions
  pub offsets : f.region_offsets ≡ starts 0 blobs
  pub lengths : f.region_sizes ≡ sizes blobs
  pub content : f.bytes ≡ concat blobs

pub length-resize_zero : (n : ℕ) (xs : List ℕ) → length (resize_zero n xs) ≡ n
length-resize_zero n xs = omega (
  arith,
  length-append (take n xs) (replicate (n - length xs) 0),
  length-take n xs,
  length-replicate {A = ℕ} (n - length xs) 0,
)

module _ (c : Codecs) (lossless : Lossless c) (kind : CompressorKind) where
  abbrev blob_of : List ℕ → List ℕ
  blob_of d = unwrap_or_empty (compress c kind d)

  flatten_deltas-blobs :
      (deltas : List (List ℕ)) (scratch : List ℕ)
      → flatten_deltas c kind (map blob_of deltas) scratch ≡ ok (scratch ++ concat deltas)
  unfolding flatten_deltas
  flatten_deltas-blobs [] scratch = rw (append-nil scratch)
  flatten_deltas-blobs (d ∷ deltas) scratch =
      let (packed, e, back) = decompress-compress c kind d lossless in
      let undo : decompress c kind (blob_of d) ≡ ok d = rw e back in
      rw (undo, flatten_deltas)
        (flatten_deltas-blobs deltas (scratch ++ d) ∙ ap ok (append_assoc scratch d _))

  -- The blobs that are sent for two frames.
  abbrev pub blobs_of : List ℕ → List ℕ → ℕ → List DamageRect → List (List ℕ)
  blobs_of current previous stride regions =
      map blob_of (region_deltas current previous stride regions)

  pub compress_frame_into-Describes :
      (current previous : List ℕ) (stride : ℕ) (regions : List DamageRect) (t1 t2 : ℕ)
      → length current ≡ length previous
      → RegionsFit stride (length previous) regions
      → (f : CompressedFrame) × (compress_frame_into c current previous stride regions kind t1 t2
          ≡ some f)
        × Describes f regions (blobs_of current previous stride regions)
  unfolding compress_frame_into
  compress_frame_into-Describes current previous stride regions t1 t2 same fit =
      let encoded = delta_encode-delta current previous stride same regions [] fit in
      let sliced =
        region_slices-region_deltas current previous (regions_delta current previous stride regions)
          stride regions 0 same fit (omega arith) refl in
      let (x, y, z) = stitch-parts (blobs_of current previous stride regions) empty_frame in
      let out = stitch (blobs_of current previous stride regions) empty_frame in
      (
        record out {
          stats = record {
            original_bytes = length (regions_delta current previous stride regions);
            compressed_bytes = length out.bytes;
            encode_time = t1;
            compress_time = t2;
          };
        },
        rw (encoded, sliced),
        record {
          count =
              length-map (region_deltas current previous stride regions) blob_of
              ∙ length-region_deltas current previous stride regions;
          offsets = y;
          lengths = z;
          content = x;
        },
      )

  -- A frame that describes these blobs is decompressed to the previous frame with the regions of the
  -- current one painted in.
  pub decompress_frame_into-Describes :
      (f : CompressedFrame) (current previous output : List ℕ) (stride : ℕ)
      (regions : List DamageRect)
      → length current ≡ length previous
      → All IsU8 current
      → All IsU8 previous
      → RegionsFit stride (length previous) regions
      → Describes f regions (blobs_of current previous stride regions)
      → decompress_frame_into c f previous stride regions output kind
        ≡ some (ok (paint current stride regions previous))
  unfolding decompress_frame_into
  decompress_frame_into-Describes f current previous output stride regions same b p fit d =
      let found =
        region_blobs-blobs f regions (blobs_of current previous stride regions) 0 0 d.count
          d.offsets d.lengths d.content (omega arith) c in
      let flat = flatten_deltas-blobs (region_deltas current previous stride regions) [] in
      rw (
        found,
        flat,
        concat-region_deltas current previous stride regions,
        decode-regions_delta current previous (resize_zero (length previous) output) stride regions
            same (length-resize_zero (length previous) output) b p fit,
      )

  -- With lossless codecs, two frames of one length and regions inside them, compressing does not
  -- panic, and its output decompresses over the previous frame, whatever the output buffer held, to
  -- the previous frame with the regions of the current one painted in.
  pub decompress_frame_into-compress_frame_into :
      (current previous output : List ℕ) (stride : ℕ) (regions : List DamageRect) (t1 t2 : ℕ)
      → length current ≡ length previous
      → All IsU8 current
      → All IsU8 previous
      → RegionsFit stride (length previous) regions
      → (f : CompressedFrame) × (compress_frame_into c current previous stride regions kind t1 t2
          ≡ some f)
        × (decompress_frame_into c f previous stride regions output kind
            ≡ some (ok (paint current stride regions previous)))
  decompress_frame_into-compress_frame_into current previous output stride regions t1 t2 same b p
        fit =
      let (f, made, d) =
        compress_frame_into-Describes current previous stride regions t1 t2 same fit in
      (
        f,
        made,
        decompress_frame_into-Describes f current previous output stride regions same b p fit d,
      )
