-- ===== src/Tests/Session.antt =====
-- Frame payloads and stripes at concrete inputs.
use remote_way.Prelude.{ℕ, ◌≡◌, ◌*◌, refl, List, [], ◌∷◌, some, true, arith}
use remote_way.Compress.Delta.{DamageRect}
use remote_way.Compress.Delta.Paint.{covered}
use remote_way.Compress.Pipeline.{CompressedFrame, default_stats}
use remote_way.Session.Payload.{ok, serialize_frame_payload, deserialize_frame_payload}
use remote_way.Session.Payload.Total.{WellFormed, deserialize-WellFormed}
use remote_way.Session.Payload.RoundTrip.{Sendable, deserialize-serialize}
use remote_way.Session.Stripes.{stripe_full_frame}
use remote_way.Session.Stripes.Cover.{covered-stripe_full_frame}

abbrev regions : List DamageRect
regions =
    record { x = 1; y = 1; width = 1; height = 2 }
    ∷ record { x = 0; y = 0; width = 1; height = 1 }
    ∷ []

abbrev frame : CompressedFrame
frame = record {
  bytes = 5 ∷ 6 ∷ 7 ∷ 8 ∷ 9 ∷ [];
  region_offsets = 0 ∷ 3 ∷ [];
  region_sizes = 3 ∷ 2 ∷ [];
  stats = default_stats;
}

frame-Sendable : Sendable 2 3 8 regions frame
frame-Sendable = record {
  width_fits = omega arith;
  height_fits = omega arith;
  stride_fits = omega arith;
  count_fits = omega arith;
  regions_fit = ground arith;
  sizes_fit = ground arith;
  counted = refl;
  laid_out = refl;
  whole = omega arith;
}

deserialize-serialize_example :
    (payload : List ℕ) × (serialize_frame_payload 2 3 8 regions frame ≡ some payload)
    × (deserialize_frame_payload payload
        ≡ ok (record {
          width = 2;
          height = 3;
          stride = 8;
          regions = regions;
          compressed = record frame { stats = default_stats };
        }))
deserialize-serialize_example = deserialize-serialize 2 3 8 regions frame frame-Sendable

deserialize-WellFormed_example : WellFormed (
    deserialize_frame_payload
      (2 ∷ 0 ∷ 0 ∷ 0 ∷ 3 ∷ 0 ∷ 0 ∷ 0 ∷ 8 ∷ 0 ∷ 0 ∷ 0 ∷ 1 ∷ 0 ∷ 0 ∷ 0 ∷ 5 ∷ []))
deserialize-WellFormed_example =
    deserialize-WellFormed (2 ∷ 0 ∷ 0 ∷ 0 ∷ 3 ∷ 0 ∷ 0 ∷ 0 ∷ 8 ∷ 0 ∷ 0 ∷ 0 ∷ 1 ∷ 0 ∷ 0 ∷ 0 ∷ 5 ∷ [])

covered-stripe_full_frame_example : covered (2 * 4) (stripe_full_frame 2 5 3) 39 ≡ true
covered-stripe_full_frame_example = covered-stripe_full_frame 2 5 3 39 (omega arith)
