-- ===== src/Session/Sync/Frame.antt =====
-- One frame on its way: the server's payload, decoded over an equal base, is the server's frame.
use remote_way.Prelude.{
  ℕ, zero, suc, ◌+◌, ◌*◌, ◌^◌, ◌≤◌, ◌<◌, false, List, [], ◌∷◌, some, length, get_elem?, ◌≡◌, refl,
  ◌∙◌, sym, ap, arith, length-append, All,
}
use native.Mathlib.Nat.{mul-le-mul, mul-le-mul_right}
use remote_way.Proto.Wire.{IsU8}
use remote_way.Compress.Delta.{DamageRect}
use remote_way.Compress.Delta.Encode.{RowsFit, RegionsFit, length-rows_delta}
use remote_way.Compress.Delta.Paint.{covered, paint_restores}
use remote_way.Compress.Compressor.{Codecs, Lossless, CompressorKind, compress}
use remote_way.Compress.Compressor
use remote_way.Compress.Pipeline.{
  CompressedFrame, compress_frame_into, decompress_frame_into, default_stats, unwrap_or_empty,
}
use remote_way.Compress.Pipeline.RoundTrip.{
  Describes, blobs_of, starts, sizes, concat, region_deltas, compress_frame_into-Describes,
  decompress_frame_into-Describes,
}
use remote_way.Session.Payload.{serialize_frame_payload, deserialize_frame_payload, FramePayload}
use remote_way.Session.Payload
use remote_way.Session.Stripes.Cover.{Stacked}
use remote_way.Session.Payload.RoundTrip.{
  Sendable, RectFits, IsU32Size, offsets_from, total, deserialize-serialize,
}

-- A codec's output for less than 2 GiB has a length of 32 bits.
pub record Bounded (c : Codecs) : Type 0 where
  pub lz4_small : (bytes : List ℕ) → length bytes < 2 ^ 31 → length (c.lz4_compress bytes) < 2 ^ 32
  pub zstd_small :
      (bytes packed : List ℕ)
      → length bytes < 2 ^ 31
      → c.zstd_encode bytes ≡ some packed
      → length packed < 2 ^ 32

-- A rectangle inside the frame.
abbrev pub Inside : ℕ → ℕ → DamageRect → Type 0
Inside w h r = (r.x + r.width ≤ w) × (r.y + r.height ≤ h)

-- Stacked rectangles are inside the frame that they make up.
pub Stacked-Inside :
    (w y end : ℕ) (rs : List DamageRect) → Stacked w y end rs → (y ≤ end) × All (Inside w end) rs
Stacked-Inside w y end [] s = (omega arith, tt)
Stacked-Inside w y end (r ∷ rs) s =
    let (below, rest) = Stacked-Inside w (y + r.height) end rs s.3 in
    (omega arith, ((omega (arith, s.0, s.2), omega (arith, s.1)), rest))

starts-offsets_from :
    (base : ℕ) (blobs : List (List ℕ)) → starts base blobs ≡ offsets_from base (sizes blobs)
starts-offsets_from base [] = refl
starts-offsets_from base (b ∷ bs) = ap (◌∷◌ base) (starts-offsets_from (base + length b) bs)

total-sizes : (blobs : List (List ℕ)) → total (sizes blobs) ≡ length (concat blobs)
total-sizes [] = refl
total-sizes (b ∷ bs) = omega (arith, length-append b (concat bs), total-sizes bs)

length-sizes : (blobs : List (List ℕ)) → length (sizes blobs) ≡ length blobs
length-sizes [] = refl
length-sizes (b ∷ bs) = ap suc (length-sizes bs)

rows_inside :
    (w h n row : ℕ) (r : DamageRect)
    → r.x + r.width ≤ w
    → r.y + row + n ≤ h
    → RowsFit (w * 4) (h * (w * 4)) r n row
rows_inside w h zero row r hx hy = tt
rows_inside w h (suc n) row r hx hy =
    let lines : (r.y + row + 1) * (w * 4) ≤ h * (w * 4) = mul-le-mul_right (w * 4) (omega arith) in
    (omega (arith, lines), rows_inside w h n (row + 1) r hx (omega arith))

pub Inside-RegionsFit :
    (w h : ℕ) (rs : List DamageRect) → All (Inside w h) rs → RegionsFit (w * 4) (h * (w * 4)) rs
Inside-RegionsFit w h [] i = tt
Inside-RegionsFit w h (r ∷ rs) i =
    (rows_inside w h r.height 0 r i.0.0 (omega (arith, i.0.1)), Inside-RegionsFit w h rs i.1)

Inside-RectFits :
    (w h : ℕ) (rs : List DamageRect)
    → w < 2 ^ 32
    → h < 2 ^ 32
    → All (Inside w h) rs
    → All RectFits rs
Inside-RectFits w h [] hw hh i = tt
Inside-RectFits w h (r ∷ rs) hw hh i = (
  (omega (arith, i.0.0), omega (arith, i.0.1), omega (arith, i.0.0), omega (arith, i.0.1)),
  Inside-RectFits w h rs hw hh i.1,
)

compress_small :
    (c : Codecs)
    → Lossless c
    → Bounded c
    → (kind : CompressorKind) (d : List ℕ) → length d < 2 ^ 31
    → length (unwrap_or_empty (compress c kind d)) < 2 ^ 32
unfolding compress
compress_small c lossless bounded CompressorKind.uncompressed d h = omega (arith, h)
compress_small c lossless bounded CompressorKind.lz4 d h = bounded.lz4_small d h
compress_small c lossless bounded CompressorKind.zstd d h =
    let (packed, e) = lossless.zstd_total d in rw e (bounded.zstd_small d packed h e)

module _ (c : Codecs) (lossless : Lossless c) (bounded : Bounded c) (kind : CompressorKind) where
  blob_small :
      (d : List ℕ) → length d < 2 ^ 31 → length (unwrap_or_empty (compress c kind d)) < 2 ^ 32
  blob_small d h = compress_small c lossless bounded kind d h

  module _ (w h : ℕ) (small : h * (w * 4) < 2 ^ 31) where
    sizes_small :
        (current base : List ℕ) (regions : List DamageRect)
        → length current ≡ length base
        → length base ≡ h * (w * 4)
        → All (Inside w h) regions
        → All IsU32Size (sizes (blobs_of c lossless kind current base (w * 4) regions))
    unfolding region_deltas
    sizes_small current base [] same len inside = tt
    sizes_small current base (r ∷ rs) same len inside =
        let fit = Inside-RegionsFit w h (r ∷ rs) inside in
        let fits = rw (← len) at fit in
        let rows = length-rows_delta current base (w * 4) same r r.height 0 fits.0 in
        let area : r.height * (r.width * 4) ≤ h * (w * 4) =
          mul-le-mul (omega (arith, inside.0.1)) (omega (arith, inside.0.0)) in
        (blob_small _ (omega (arith, rows, area)), sizes_small current base rs same len inside.1)

    -- The base and the regions, which cover all that differs from it.
    pub record Drawn (current base : List ℕ) (regions : List DamageRect) : Type 0 where
      pub width_fits : w * 4 < 2 ^ 32
      pub height_fits : h < 2 ^ 32
      pub count_fits : length regions < 2 ^ 32
      pub current_len : length current ≡ h * (w * 4)
      pub base_len : length base ≡ h * (w * 4)
      pub current_bytes : All IsU8 current
      pub base_bytes : All IsU8 base
      pub inside : All (Inside w h) regions
      pub agree :
          (k : ℕ) → covered (w * 4) regions k ≡ false → get_elem? current k ≡ get_elem? base k

    -- What the client parses: all but the statistics.
    abbrev pub arrived : CompressedFrame → List DamageRect → FramePayload
    arrived f regions = record {
      width = w;
      height = h;
      stride = w * 4;
      regions = regions;
      compressed = record f { stats = default_stats };
    }

    described-Sendable :
        (current base : List ℕ) (regions : List DamageRect) (f : CompressedFrame)
        → Drawn current base regions
        → Describes f regions (blobs_of c lossless kind current base (w * 4) regions)
        → Sendable w h (w * 4) regions f
    described-Sendable current base regions f d e =
        let blobs = blobs_of c lossless kind current base (w * 4) regions in
        record {
          width_fits = omega (arith, d.width_fits);
          height_fits = d.height_fits;
          stride_fits = d.width_fits;
          count_fits = d.count_fits;
          regions_fit =
              Inside-RectFits w h regions (omega (arith, d.width_fits)) d.height_fits d.inside;
          sizes_fit = rw e.lengths (
              sizes_small current base regions (d.current_len ∙ sym d.base_len) d.base_len
                d.inside);
          counted = ap length e.lengths ∙ length-sizes blobs ∙ e.count;
          laid_out = e.offsets ∙ starts-offsets_from 0 blobs ∙ ap (offsets_from 0) (sym e.lengths);
          whole = rw (e.lengths, e.content, total-sizes blobs) (omega arith);
        }

    -- The frame goes through: neither side panics, and what the client decodes over an equal base is
    -- the server's frame.
    pub frame_arrives :
        (current base : List ℕ) (regions : List DamageRect)
        → Drawn current base regions
        → (f : CompressedFrame) × (payload : List ℕ) × (compress_frame_into c current base
              (w * 4)
              regions
              kind
              0
              0
            ≡ some f)
          × (serialize_frame_payload w h (w * 4) regions f ≡ some payload)
          × (deserialize_frame_payload payload ≡ Payload.ok (arrived f regions))
          × (decompress_frame_into c
                (record f { stats = default_stats })
                base
                (w * 4)
                regions
                []
                kind
              ≡ some (Compressor.Result.ok current))
    frame_arrives current base regions d =
        let same : length current ≡ length base = d.current_len ∙ sym d.base_len in
        let fit : RegionsFit (w * 4) (length base) regions =
          rw d.base_len (Inside-RegionsFit w h regions d.inside) in
        let (f, made, e) =
          compress_frame_into-Describes c lossless kind current base (w * 4) regions 0 0 same fit in
        let (payload, wrote, read) =
          deserialize-serialize w h (w * 4) regions f
            (described-Sendable current base regions f d e) in
        let stripped : Describes (record f { stats = default_stats }) regions
            (blobs_of c lossless kind current base (w * 4) regions) =
          record {
            count = e.count;
            offsets = e.offsets;
            lengths = e.lengths;
            content = e.content;
          } in
        let decoded =
          decompress_frame_into-Describes c lossless kind (record f { stats = default_stats })
            current base [] (w * 4) regions same d.current_bytes d.base_bytes fit stripped in
        let restored = paint_restores current (w * 4) regions base same fit d.agree in
        (f, payload, made, wrote, read, rw restored at decoded)
