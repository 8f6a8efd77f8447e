-- ===== src/Compress/Delta/Decode.antt =====
-- Decoding what was encoded.
use remote_way.Prelude.{
  ℕ, zero, suc, ◌+◌, ◌*◌, ◌≤◌, false, List, [], ◌∷◌, ◌++◌, some, length, take, drop, get_elem?, ◌≡◌,
  refl, ◌∙◌, sym, ap, arith, append_assoc, length-take, length-drop, length-append, drop-drop,
  take-length, drop-length, All, All-take, All-drop, ==_refl,
}
use remote_way.Prelude.Bits.{bit_xor_twice_below}
use remote_way.Proto.Wire.{IsU8}
use remote_way.Compress.Delta.{
  DamageRect, xor_bytes, row_start, row_end, decode_rows, decode_regions, delta_decode,
  delta_encode_simd,
}
use remote_way.Compress.Delta.Rows.{decode_bytes-paste, length-xor_bytes}
use remote_way.Compress.Delta.Encode.{
  row_delta, rows_delta, regions_delta, RowsFit, RegionsFit, length-rows_delta, length-row_delta,
  delta_encode-delta,
}
use remote_way.Compress.Delta.Paint.{
  paste, paint_rows, paint, length-paste, length-paint_rows, covered, paint_restores,
}

xor_bytes_twice :
    (c p : List ℕ) → length c ≡ length p → All IsU8 c → All IsU8 p → xor_bytes p (xor_bytes c p) ≡ c
xor_bytes_twice [] [] e hc hp = refl
xor_bytes_twice [] (y ∷ p) e hc hp = absurd (omega arith)
xor_bytes_twice (x ∷ c) [] e hc hp = absurd (omega arith)
xor_bytes_twice (x ∷ c) (y ∷ p) e hc hp =
    rw (bit_xor_twice_below 8 x y hc.0 hp.0, xor_bytes_twice c p (omega arith) hc.1 hp.1)

module _ (current previous delta : List ℕ) (stride : ℕ) (same : length current ≡ length previous)
    (bytes : All IsU8 current) (old_bytes : All IsU8 previous) where
  row_restored :
      (rect : DamageRect) (row offset : ℕ) (rest : List ℕ)
      → row_end rect stride row ≤ length previous
      → drop offset delta ≡ row_delta current previous stride rect row ++ rest
      → xor_bytes
          (take (rect.width * 4) (drop (row_start rect stride row) previous))
          (take (rect.width * 4) (drop offset delta))
        ≡ take (rect.width * 4) (drop (row_start rect stride row) current)
  row_restored rect row offset rest fit d =
      let s = row_start rect stride row in
      let w = rect.width * 4 in
      let lc : length (take w (drop s current)) ≡ w =
        omega (arith, length-take w (drop s current), length-drop s current) in
      let lp : length (take w (drop s previous)) ≡ w =
        omega (arith, length-take w (drop s previous), length-drop s previous) in
      let front : take w (drop offset delta) ≡ row_delta current previous stride rect row =
        rw d (take-length _ rest w (sym (length-xor_bytes _ _ (lc ∙ sym lp) ∙ lc))) in
      rw front (
        xor_bytes_twice _ _ (lc ∙ sym lp) (All-take IsU8 w _ (All-drop IsU8 s current bytes))
          (All-take IsU8 w _ (All-drop IsU8 s previous old_bytes)))

  decode_rows-paint :
      (rect : DamageRect) (n row offset : ℕ) (rest out : List ℕ)
      → length out ≡ length previous
      → RowsFit stride (length previous) rect n row
      → offset ≤ length delta
      → drop offset delta ≡ rows_delta current previous stride rect n row ++ rest
      → decode_rows delta previous stride rect n row offset out
        ≡ some (offset + n * (rect.width * 4), paint_rows current stride rect n row out)
  unfolding decode_rows rows_delta paint_rows
  decode_rows-paint rect zero row offset rest out e fit o d =
      let stay : offset + 0 * (rect.width * 4) ≡ offset = omega arith in rw stay
  decode_rows-paint rect (suc n) row offset rest out e fit o d =
      let s = row_start rect stride row in
      let w = rect.width * 4 in
      let here : List ℕ = row_delta current previous stride rect row in
      let later : List ℕ = rows_delta current previous stride rect n (row + 1) in
      let split = d ∙ append_assoc here later rest in
      let width : length here ≡ w = length-row_delta current previous stride same rect row fit.0 in
      let room : offset + w ≤ length delta = omega (
        arith,
        length-drop offset delta,
        ap length split,
        length-append here (later ++ rest),
        fit.0,
      ) in
      let one =
        decode_bytes-paste delta previous stride s offset w 0 s offset out e (omega arith)
          (omega arith) (omega (arith, fit.0)) room in
      let restored = row_restored rect row offset (later ++ rest) fit.0 split in
      let len = length-paste current out s w (same ∙ sym e) (omega (arith, fit.0)) in
      let next : drop (offset + w) delta ≡ later ++ rest =
        sym (drop-drop offset w (offset + w) delta refl)
        ∙ ap (drop w) split
        ∙ drop-length here (later ++ rest) w (sym width) in
      let rec =
        decode_rows-paint rect n (row + 1) (offset + w) rest (paste current s w out) (len ∙ e) fit.1
          room next in
      let sum : offset + w + n * w ≡ offset + suc n * w = omega arith in
      rw (one, restored, rec, sum)

  decode_regions-paint :
      (regions : List DamageRect) (offset : ℕ) (out : List ℕ)
      → length out ≡ length previous
      → RegionsFit stride (length previous) regions
      → offset ≤ length delta
      → drop offset delta ≡ regions_delta current previous stride regions
      → decode_regions delta previous stride regions offset out
        ≡ some (paint current stride regions out)
  unfolding decode_regions regions_delta paint
  decode_regions-paint [] offset out e fit o d = refl
  decode_regions-paint (rect ∷ regions) offset out e fit o d =
      let here : List ℕ = rows_delta current previous stride rect rect.height 0 in
      let later : List ℕ = regions_delta current previous stride regions in
      let w = rect.height * (rect.width * 4) in
      let width : length here ≡ w =
        length-rows_delta current previous stride same rect rect.height 0 fit.0 in
      let one = decode_rows-paint rect rect.height 0 offset later out e fit.0 o d in
      let len =
        length-paint_rows current stride rect rect.height 0 out (same ∙ sym e) (rw e fit.0) in
      let next : drop (offset + w) delta ≡ later =
        sym (drop-drop offset w (offset + w) delta refl)
        ∙ ap (drop w) d
        ∙ drop-length here later w (sym width) in
      let room : offset + w ≤ length delta =
        omega (arith, length-drop offset delta, ap length d, length-append here later) in
      rw one (decode_regions-paint regions (offset + w) _ (len ∙ e) fit.1 room next)

-- Decoding the delta of the regions.
pub decode-regions_delta :
    (current previous output : List ℕ) (stride : ℕ) (regions : List DamageRect)
    → length current ≡ length previous
    → length output ≡ length previous
    → All IsU8 current
    → All IsU8 previous
    → RegionsFit stride (length previous) regions
    → delta_decode (regions_delta current previous stride regions) previous stride regions output
      ≡ some (paint current stride regions previous)
unfolding delta_decode
decode-regions_delta current previous output stride regions same len bytes old_bytes fit =
    rw (len, ==_refl (length previous))
      (decode_regions-paint current previous _ stride same bytes old_bytes regions 0 previous refl
        fit (omega arith) refl)

-- What was encoded from two frames of one length and regions inside them decodes, over the previous
-- frame, to the previous frame with the regions of the current one painted in. Neither call panics.
pub delta_decode-delta_encode :
    (current previous output : List ℕ) (stride : ℕ) (regions : List DamageRect)
    → length current ≡ length previous
    → length output ≡ length previous
    → All IsU8 current
    → All IsU8 previous
    → RegionsFit stride (length previous) regions
    → (delta : List ℕ) × (delta_encode_simd current previous stride regions []
        ≡ some (delta, length delta))
      × (delta_decode delta previous stride regions output
          ≡ some (paint current stride regions previous))
delta_decode-delta_encode current previous output stride regions same len bytes old_bytes fit =
    let delta = regions_delta current previous stride regions in
    (
      delta,
      delta_encode-delta current previous stride same regions [] fit,
      decode-regions_delta current previous output stride regions same len bytes old_bytes fit,
    )

-- What was encoded from two frames of one length and regions inside them decodes, over the previous
-- frame, to the current one, if the frames agree outside the regions.
pub delta_round_trip :
    (current previous output : List ℕ) (stride : ℕ) (regions : List DamageRect)
    → length current ≡ length previous
    → length output ≡ length previous
    → All IsU8 current
    → All IsU8 previous
    → RegionsFit stride (length previous) regions
    → ((k : ℕ) → covered stride regions k ≡ false → get_elem? current k ≡ get_elem? previous k)
    → (delta : List ℕ) × (delta_encode_simd current previous stride regions []
        ≡ some (delta, length delta))
      × (delta_decode delta previous stride regions output ≡ some current)
delta_round_trip current previous output stride regions same len bytes old_bytes fit agree =
    let (delta, encoded, decoded) =
      delta_decode-delta_encode current previous output stride regions same len bytes old_bytes
        fit in
    (
      delta,
      encoded,
      decoded ∙ ap some (paint_restores current stride regions previous same fit agree),
    )
