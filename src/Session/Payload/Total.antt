-- ===== src/Session/Payload/Total.antt =====
-- The parser of frame payloads on any bytes.
use remote_way.Prelude.{
  ℕ, zero, suc, ◌+◌, ◌-◌, ◌≤◌, List, [], ◌∷◌, ◌++◌, some, length, take, drop, ltb, ◌≡◌, inl, inr,
  refl, ◌∙◌, arith, length-take, length-drop, length-append, Bool-cases, Option-cases, not-ltb→le,
}
use remote_way.Proto.FrameMeta
use remote_way.Proto.FrameMeta.{FrameMeta}
use remote_way.Proto.WireRegion
use remote_way.Proto.WireRegion.{WireRegion}
use remote_way.Compress.Delta.{range}
use remote_way.Compress.Delta.Rows.{range-some}
use remote_way.Session.Payload.{
  Parsed, ok, err, panicked, Table, push_region, at, read_regions, FramePayload, finish,
  empty_table, with_meta, deserialize_frame_payload,
}

region_parses :
    (bytes : List ℕ)
    → length bytes ≡ WireRegion.size
    → (wr : WireRegion) × (WireRegion.ref_from_bytes bytes ≡ some wr)
unfolding WireRegion.ref_from_bytes
region_parses bytes h = rw h (_, refl)

range_len :
    (payload : List ℕ) (i : ℕ)
    → at (i + 1) ≤ length payload
    → (bytes : List ℕ) × (range payload (at i) (at i + WireRegion.size) ≡ some bytes)
      × (length bytes ≡ WireRegion.size)
range_len payload i h =
    let width : at i + WireRegion.size - at i ≡ WireRegion.size = omega arith in
    (
      take WireRegion.size (drop (at i) payload),
      range-some payload (at i) (at i + WireRegion.size) (omega arith) (omega arith) ∙ rw width,
      omega (arith, length-take WireRegion.size (drop (at i) payload), length-drop (at i) payload),
    )

-- The table counts its regions, and its sizes sum up to the bytes that it claims.
abbrev pub sum : List ℕ → ℕ
sum [] = 0
sum (n ∷ ns) = n + sum ns

sum-append : (xs ys : List ℕ) → sum (xs ++ ys) ≡ sum xs + sum ys
sum-append [] ys = omega arith
sum-append (x ∷ xs) ys = omega (arith, sum-append xs ys)

pub record Counts (t : Table) (n : ℕ) : Type 0 where
  pub regions_counted : length t.regions ≡ n
  pub offsets_counted : length t.region_offsets ≡ n
  pub sizes_counted : length t.region_sizes ≡ n
  pub claimed : sum t.region_sizes ≡ t.data_offset

push_region-Counts :
    (t : Table) (n : ℕ) (wr : WireRegion) → Counts t n → Counts (push_region t wr) (n + 1)
push_region-Counts t n wr c = record {
  regions_counted = omega (
    arith,
    length-append t.regions (record { x = wr.x; y = wr.y; width = wr.w; height = wr.h } ∷ []),
    c.regions_counted,
  );
  offsets_counted =
      omega (arith, length-append t.region_offsets (t.data_offset ∷ []), c.offsets_counted);
  sizes_counted =
      omega (arith, length-append t.region_sizes (wr.compressed_size ∷ []), c.sizes_counted);
  claimed = omega (arith, sum-append t.region_sizes (wr.compressed_size ∷ []), c.claimed);
}

read_regions-Counts :
    (payload : List ℕ) (n i : ℕ) (t : Table)
    → at (i + n) ≤ length payload
    → Counts t i
    → (u : Table) × (read_regions payload n i t ≡ ok u) × Counts u (i + n)
unfolding read_regions
read_regions-Counts payload zero i t h c =
    let same : i + 0 ≡ i = omega arith in (t, refl, rw same c)
read_regions-Counts payload (suc n) i t h c =
    let (bytes, found, len) = range_len payload i (omega arith) in
    let (wr, parsed) = region_parses bytes len in
    let (u, run, counts) =
      read_regions-Counts payload n (i + 1) (push_region t wr) (omega arith)
        (push_region-Counts t i wr c) in
    let same : i + 1 + n ≡ i + suc n = omega arith in (u, rw (found, parsed) run, rw same at counts)

-- A result that is no panic, and whose tables have an entry for each region and claim no more
-- bytes than there are.
abbrev pub WellFormed : Parsed FramePayload → Type 0
WellFormed (ok p) =
    (length p.compressed.region_offsets ≡ length p.regions)
    × (length p.compressed.region_sizes ≡ length p.regions)
    × (sum p.compressed.region_sizes ≤ length p.compressed.bytes)
WellFormed (err e) = Unit {0}
WellFormed panicked = ⊥

finish-WellFormed :
    (payload : List ℕ) (m : FrameMeta) (t : Table) (n : ℕ)
    → Counts t n
    → WellFormed (finish payload m t)
finish-WellFormed payload m t n c =
    elim (Bool-cases (ltb (length (drop (at m.num_regions) payload)) t.data_offset)) [
      | inl short ↦ rw short tt
      | inr enough ↦ rw enough (
        omega (arith, c.offsets_counted, c.regions_counted),
        omega (arith, c.sizes_counted, c.regions_counted),
        omega (arith, c.claimed, not-ltb→le _ _ enough),
      )
    ]

with_meta-WellFormed : (payload : List ℕ) (m : FrameMeta) → WellFormed (with_meta payload m)
unfolding with_meta
with_meta-WellFormed payload m = elim (Bool-cases (ltb (length payload) (at m.num_regions))) [
  | inl short ↦ rw short tt
  | inr enough ↦
      let room : at (0 + m.num_regions) ≤ length payload = omega (arith, not-ltb→le _ _ enough) in
      let start : Counts empty_table 0 = record {
        regions_counted = refl;
        offsets_counted = refl;
        sizes_counted = refl;
        claimed = refl;
      } in
      let (u, run, counts) = read_regions-Counts payload m.num_regions 0 empty_table room start in
      rw (enough, run) (finish-WellFormed payload m u (0 + m.num_regions) counts)
]

-- On any bytes at all the client's parser returns without a panic: an error, or a frame whose
-- offset and size tables have an entry for each region and claim no more bytes than there are.
pub deserialize-WellFormed : (payload : List ℕ) → WellFormed (deserialize_frame_payload payload)
unfolding deserialize_frame_payload
deserialize-WellFormed payload = elim (Bool-cases (ltb (length payload) FrameMeta.size)) [
  | inl short ↦ rw short tt
  | inr enough ↦ elim (Option-cases (FrameMeta.ref_from_bytes (take FrameMeta.size payload))) [
    | inl e ↦ rw (enough, e) tt
    | inr (m, e) ↦ rw (enough, e) (with_meta-WellFormed payload m)
  ]
]
