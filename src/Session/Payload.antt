-- ===== src/Session/Payload.antt =====
-- The payload of a frame message: `serialize_frame_payload` of crates/remoteway-server/src/pipeline.rs
-- and `deserialize_frame_payload` of crates/remoteway-client/src/pipeline.rs.
pub mod RoundTrip
pub mod Total
use remote_way.Prelude.{
  ℕ, zero, suc, ◌+◌, ◌-◌, ◌*◌, ◌/◌, ◌%◌, ◌^◌, ◌≤◌, ◌<◌, min, max, bit_and, bit_or, bit_xor, Bool,
  true, false, not, ◌&&◌, ◌||◌, List, [], ◌∷◌, ◌++◌, map, Option, none, some, length, take, drop,
  set, replicate, get_elem?, leb, ltb, ◌==◌, if◌then◌else◌, ◌≡◌, ◌≢◌, ◌⊎◌, inl, inr, refl, ◌∙◌, sym,
  ap, ap₂, subst, arith, append_assoc, append-nil, length-take, length-drop, length-append,
  drop-drop, take-append-drop, length-set, drop_all, take_all, take-length, drop-length, drop-take,
  take-take, take-set, drop-set, drop_get, All, All-take, All-drop, All-append, Bool-cases,
  Option-cases, ==_iff, ltb→lt, lt→ltb, le→not-ltb, not-ltb→le, length-map, get_of_drop,
  length-replicate,
}
use remote_way.Proto.FrameMeta
use remote_way.Proto.FrameMeta.{FrameMeta}
use remote_way.Proto.WireRegion
use remote_way.Proto.WireRegion.{WireRegion}
use remote_way.Compress.Delta.{DamageRect, range, ◌>>=◌}
use remote_way.Compress.Pipeline.{CompressedFrame, default_stats}

-- The descriptors, from region `i` on. `as u32` keeps 32 bits; `none` is a panic.
unfoldable pub descriptors : List DamageRect → ℕ → List ℕ → Option (List ℕ)
descriptors [] i region_sizes = some []
descriptors (rect ∷ regions) i region_sizes = do
  size ← get_elem? region_sizes i
  rest ← descriptors regions (i + 1) region_sizes
  some (
      WireRegion.as_bytes (WireRegion.new rect.x rect.y rect.width rect.height (size % 2 ^ 32))
      ++ rest)

unfoldable pub serialize_frame_payload :
    ℕ → ℕ → ℕ → List DamageRect → CompressedFrame → Option (List ℕ)
serialize_frame_payload width height stride regions compressed = do
  described ← descriptors regions 0 compressed.region_sizes
  some (
      FrameMeta.as_bytes (FrameMeta.new width height stride (length regions % 2 ^ 32))
      ++ (described ++ compressed.bytes))

pub data PayloadError : Type 0 where
  no_meta no_regions no_data bad_struct : PayloadError

-- `panicked` is an index outside of the payload.
pub data Parsed {ℓ} (A : Type ℓ) : Type ℓ where
  ok : A → Parsed A
  err : PayloadError → Parsed A
  panicked : Parsed A

abbrev pub and_then {ℓ κ} : {A : Type ℓ} {B : Type κ} → Parsed A → (A → Parsed B) → Parsed B
and_then (ok a) f = f a
and_then (err e) f = err e
and_then panicked f = panicked

abbrev pub or_panic {ℓ} : {A : Type ℓ} → Option A → Parsed A
or_panic none = panicked
or_panic (some a) = ok a

abbrev pub or_err {ℓ} : {A : Type ℓ} → PayloadError → Option A → Parsed A
or_err e none = err e
or_err e (some a) = ok a

-- The vectors that the loop over the descriptors fills, and the end of the bytes they claim.
pub record Table : Type 0 where
  pub regions : List DamageRect
  pub region_offsets : List ℕ
  pub region_sizes : List ℕ
  pub data_offset : ℕ

abbrev pub push_region : Table → WireRegion → Table
push_region t wr = record {
  regions = t.regions ++ (record { x = wr.x; y = wr.y; width = wr.w; height = wr.h } ∷ []);
  region_offsets = t.region_offsets ++ (t.data_offset ∷ []);
  region_sizes = t.region_sizes ++ (wr.compressed_size ∷ []);
  data_offset = t.data_offset + wr.compressed_size;
}

abbrev pub at : ℕ → ℕ
at i = FrameMeta.size + i * WireRegion.size

-- `n` descriptors are left, from descriptor `i` on.
unfoldable pub read_regions : List ℕ → ℕ → ℕ → Table → Parsed Table
read_regions payload zero i t = ok t
read_regions payload (suc n) i t =
    and_then (or_panic (range payload (at i) (at i + WireRegion.size))) (λ bytes.
      and_then (or_err bad_struct (WireRegion.ref_from_bytes bytes))
        (λ wr. read_regions payload n (i + 1) (push_region t wr)))

pub record FramePayload : Type 0 where
  pub width : ℕ
  pub height : ℕ
  pub stride : ℕ
  pub regions : List DamageRect
  pub compressed : CompressedFrame

-- What follows the loop, once the descriptors are read.
abbrev pub finish : List ℕ → FrameMeta → Table → Parsed FramePayload
finish payload m t =
    let rest = drop (at m.num_regions) payload in
    if ltb (length rest) t.data_offset
    then err no_data
    else ok (record {
      width = m.width;
      height = m.height;
      stride = m.stride;
      regions = t.regions;
      compressed = record {
        bytes = rest;
        region_offsets = t.region_offsets;
        region_sizes = t.region_sizes;
        stats = default_stats;
      };
    })

abbrev pub empty_table : Table
empty_table = record { regions = []; region_offsets = []; region_sizes = []; data_offset = 0 }

unfoldable pub with_meta : List ℕ → FrameMeta → Parsed FramePayload
with_meta payload m =
    if ltb (length payload) (at m.num_regions)
    then err no_regions
    else and_then (read_regions payload m.num_regions 0 empty_table) (finish payload m)

unfoldable pub deserialize_frame_payload : List ℕ → Parsed FramePayload
deserialize_frame_payload payload =
    if ltb (length payload) FrameMeta.size
    then err no_meta
    else and_then (or_err bad_struct (FrameMeta.ref_from_bytes (take FrameMeta.size payload)))
        (with_meta payload)
