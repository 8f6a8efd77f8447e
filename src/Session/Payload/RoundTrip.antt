-- ===== src/Session/Payload/RoundTrip.antt =====
-- What the server serializes the client parses.
use remote_way.Prelude.{
  ℕ, zero, suc, ◌+◌, ◌*◌, ◌%◌, ◌^◌, ◌≤◌, ◌<◌, false, List, [], ◌∷◌, ◌++◌, some, length, take, drop,
  ltb, ◌≡◌, refl, ◌∙◌, sym, ap, arith, append_assoc, append-nil, length-append, drop-drop,
  take-length, drop-length, All, le→not-ltb, get_of_drop,
}
use remote_way.Proto.FrameMeta
use remote_way.Proto.FrameMeta.{FrameMeta}
use remote_way.Proto.WireRegion
use remote_way.Proto.WireRegion.{WireRegion}
use remote_way.Compress.Delta.{DamageRect}
use remote_way.Compress.Pipeline.{CompressedFrame, default_stats}
use remote_way.Session.Payload.{
  descriptors, serialize_frame_payload, ok, Table, push_region, at, read_regions, empty_table,
  with_meta, deserialize_frame_payload,
}
use native.Mathlib.Nat.{add_assoc}
use remote_way.Compress.Pipeline.RoundTrip.{range_front}
use remote_way.Proto.WireRegion.{
  ref_from_bytes-as_bytes as region_back, length-as_bytes as length-region,
}
use remote_way.Proto.FrameMeta.{
  ref_from_bytes-as_bytes as meta_back, length-as_bytes as length-meta,
}

-- Offsets that follow from sizes.
abbrev pub offsets_from : ℕ → List ℕ → List ℕ
offsets_from base [] = []
offsets_from base (s ∷ ss) = base ∷ offsets_from (base + s) ss

abbrev pub total : List ℕ → ℕ
total [] = 0
total (s ∷ ss) = s + total ss

abbrev pub RectFits : DamageRect → Type 0
RectFits r = (r.x < 2 ^ 32) × (r.y < 2 ^ 32) × (r.width < 2 ^ 32) × (r.height < 2 ^ 32)

abbrev pub IsU32Size : ℕ → Type 0
IsU32Size s = s < 2 ^ 32

abbrev region_of : DamageRect → ℕ → WireRegion
region_of r s = WireRegion.new r.x r.y r.width r.height (s % 2 ^ 32)

-- The descriptors of regions and sizes, one for one.
abbrev described : List DamageRect → List ℕ → List ℕ
described [] ss = []
described (r ∷ rs) [] = []
described (r ∷ rs) (s ∷ ss) = WireRegion.as_bytes (region_of r s) ++ described rs ss

descriptors-described :
    (rs : List DamageRect) (i : ℕ) (all ss : List ℕ)
    → length ss ≡ length rs
    → drop i all ≡ ss
    → descriptors rs i all ≡ some (described rs ss)
unfolding descriptors
descriptors-described [] i all ss e d = refl
descriptors-described (r ∷ rs) i all [] e d = absurd (omega arith)
descriptors-described (r ∷ rs) i all (s ∷ ss) e d =
    let (found, next) = get_of_drop all i s ss d in
    rw (found, descriptors-described rs (i + 1) all ss (omega arith) next)

region-Fits : (r : DamageRect) (s : ℕ) → RectFits r → WireRegion.Fits (region_of r s)
unfolding WireRegion.new
region-Fits r s f = record {
  x_fits = omega (arith, f.0);
  y_fits = omega (arith, f.1);
  w_fits = omega (arith, f.2);
  h_fits = omega (arith, f.3);
  compressed_size_fits = omega arith;
}

push_region_of :
    (t : Table) (r : DamageRect) (s : ℕ)
    → s < 2 ^ 32
    → push_region t (region_of r s) ≡ record {
      regions = t.regions ++ (r ∷ []);
      region_offsets = t.region_offsets ++ (t.data_offset ∷ []);
      region_sizes = t.region_sizes ++ (s ∷ []);
      data_offset = t.data_offset + s;
    }
unfolding WireRegion.new
push_region_of t r s h = let same : s % 2 ^ 32 ≡ s = omega arith in rw same

length-described :
    (rs : List DamageRect) (ss : List ℕ)
    → length ss ≡ length rs
    → length (described rs ss) ≡ length rs * WireRegion.size
length-described [] ss e = refl
length-described (r ∷ rs) [] e = absurd (omega arith)
length-described (r ∷ rs) (s ∷ ss) e = omega (
  arith,
  length-append (WireRegion.as_bytes (region_of r s)) (described rs ss),
  length-region (region_of r s),
  length-described rs ss (omega arith),
)

new_meta :
    (width height stride n : ℕ)
    → n < 2 ^ 32
    → FrameMeta.new width height stride (n % 2 ^ 32)
      ≡ record { width = width; height = height; stride = stride; num_regions = n }
unfolding FrameMeta.new
new_meta width height stride n h = let same : n % 2 ^ 32 ≡ n = omega arith in rw same

read_regions-described :
    (payload tail : List ℕ) (rs : List DamageRect) (ss : List ℕ) (n i : ℕ) (t : Table)
    → n ≡ length rs
    → length ss ≡ length rs
    → All RectFits rs
    → All IsU32Size ss
    → at i ≤ length payload
    → drop (at i) payload ≡ described rs ss ++ tail
    → read_regions payload n i t
      ≡ ok (record {
        regions = t.regions ++ rs;
        region_offsets = t.region_offsets ++ offsets_from t.data_offset ss;
        region_sizes = t.region_sizes ++ ss;
        data_offset = t.data_offset + total ss;
      })
unfolding read_regions
read_regions-described payload tail [] [] zero i t en e fr fs h d =
    let same : t.data_offset + 0 ≡ t.data_offset = omega arith in simp append-nil (rw same)
read_regions-described payload tail [] [] (suc n) i t en e fr fs h d = absurd (omega arith)
read_regions-described payload tail [] (s ∷ ss) n i t en e fr fs h d = absurd (omega arith)
read_regions-described payload tail (r ∷ rs) [] n i t en e fr fs h d = absurd (omega arith)
read_regions-described payload tail (r ∷ rs) (s ∷ ss) zero i t en e fr fs h d = absurd (omega arith)
read_regions-described payload tail (r ∷ rs) (s ∷ ss) (suc n) i t en e fr fs h d =
    let here : List ℕ = WireRegion.as_bytes (region_of r s) in
    let (found, next, room) =
      range_front payload here (described rs ss ++ tail) (at i) (at i + WireRegion.size) h
        (d ∙ append_assoc here (described rs ss) tail)
        (omega (arith, length-region (region_of r s))) in
    let parsed = region_back (region_of r s) (region-Fits r s fr.0) in
    let shift : at i + WireRegion.size ≡ at (i + 1) = omega arith in
    let t' : Table = record {
      regions = t.regions ++ (r ∷ []);
      region_offsets = t.region_offsets ++ (t.data_offset ∷ []);
      region_sizes = t.region_sizes ++ (s ∷ []);
      data_offset = t.data_offset + s;
    } in
    let rec =
      read_regions-described payload tail rs ss n (i + 1) t' (omega arith) (omega arith) fr.1 fs.1
        (rw (← shift) room) (rw (← shift) next) in
    rw (found, parsed)
      (ap (read_regions payload n (i + 1)) (push_region_of t r s fs.0)
        ∙ rec
        ∙ simp (append_assoc, add_assoc))

-- A frame described region by region.
pub record Sendable (width height stride : ℕ) (regions : List DamageRect) (f : CompressedFrame)
    : Type 0 where
  pub width_fits : width < 2 ^ 32
  pub height_fits : height < 2 ^ 32
  pub stride_fits : stride < 2 ^ 32
  pub count_fits : length regions < 2 ^ 32
  pub regions_fit : All RectFits regions
  pub sizes_fit : All IsU32Size f.region_sizes
  pub counted : length f.region_sizes ≡ length regions
  pub laid_out : f.region_offsets ≡ offsets_from 0 f.region_sizes
  pub whole : total f.region_sizes ≤ length f.bytes

-- The server writes, without a panic, a payload from which the client reads the same dimensions,
-- regions, offsets, sizes and bytes; only the statistics are not sent. The numbers must fit the
-- fields, and the offsets and sizes describe the bytes.
pub deserialize-serialize :
    (width height stride : ℕ) (regions : List DamageRect) (f : CompressedFrame)
    → Sendable width height stride regions f
    → (payload : List ℕ) × (serialize_frame_payload width height stride regions f ≡ some payload)
      × (deserialize_frame_payload payload
          ≡ ok (record {
            width = width;
            height = height;
            stride = stride;
            regions = regions;
            compressed = record f { stats = default_stats };
          }))
unfolding serialize_frame_payload deserialize_frame_payload with_meta
deserialize-serialize width height stride regions f s =
    let m : FrameMeta = record {
      width = width;
      height = height;
      stride = stride;
      num_regions = length regions;
    } in
    let made : FrameMeta.new width height stride (length regions % 2 ^ 32) ≡ m =
      new_meta width height stride (length regions) s.count_fits in
    let body : List ℕ = described regions f.region_sizes ++ f.bytes in
    let payload : List ℕ = FrameMeta.as_bytes m ++ body in
    let wrote = descriptors-described regions 0 f.region_sizes f.region_sizes s.counted refl in
    let front : take FrameMeta.size payload ≡ FrameMeta.as_bytes m =
      take-length (FrameMeta.as_bytes m) body FrameMeta.size (sym (length-meta m)) in
    let fits : FrameMeta.Fits m = record {
      width_fits = omega (arith, s.width_fits);
      height_fits = omega (arith, s.height_fits);
      stride_fits = omega (arith, s.stride_fits);
      num_regions_fits = omega (arith, s.count_fits);
    } in
    let parsed = meta_back m fits in
    let behind : drop FrameMeta.size payload ≡ body =
      drop-length (FrameMeta.as_bytes m) body FrameMeta.size (sym (length-meta m)) in
    let long : ltb (length payload) FrameMeta.size ≡ false =
      le→not-ltb _ _ (omega (arith, length-append (FrameMeta.as_bytes m) body, length-meta m)) in
    let size = length-described regions f.region_sizes s.counted in
    let room : ltb (length payload) (at (length regions)) ≡ false = le→not-ltb _ _ (
      omega (
        arith,
        length-append (FrameMeta.as_bytes m) body,
        length-meta m,
        size,
        length-append (described regions f.region_sizes) f.bytes,
      )) in
    let read =
      read_regions-described payload f.bytes regions f.region_sizes (length regions) 0 empty_table
        refl s.counted s.regions_fit s.sizes_fit
        (omega (arith, length-append (FrameMeta.as_bytes m) body, length-meta m)) behind in
    let tail : drop (at (length regions)) payload ≡ f.bytes =
      sym (
        drop-drop FrameMeta.size (length regions * WireRegion.size) (at (length regions)) payload
          refl)
      ∙ ap (drop (length regions * WireRegion.size)) behind
      ∙ drop-length (described regions f.region_sizes) f.bytes _ (omega (arith, size)) in
    let enough : ltb (length f.bytes) (0 + total f.region_sizes) ≡ false =
      le→not-ltb _ _ (omega (arith, s.whole)) in
    (
      payload,
      rw (wrote, made),
      rw (long, front, parsed, room, read, tail, enough) (rw (← s.laid_out)),
    )
