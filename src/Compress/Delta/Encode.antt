-- ===== src/Compress/Delta/Encode.antt =====
-- The two encoders agree, and on regions inside the frame they write the delta of each row.
use remote_way.Prelude.{
  ℕ, zero, suc, ◌+◌, ◌-◌, ◌*◌, ◌≤◌, List, [], ◌∷◌, ◌++◌, some, length, take, drop, ◌≡◌, inl, inr,
  refl, ◌∙◌, sym, ap, arith, append_assoc, append-nil, length-take, length-drop, length-append,
  Option-cases,
}
use remote_way.Compress.Delta.{
  DamageRect, range, xor_bytes, row_start, row_end, scalar_rows, scalar_regions,
  delta_encode_scalar, simd_rows, simd_regions, delta_encode_simd,
}
use remote_way.Compress.Delta.Rows.{range-some, length-xor_bytes, xor_into_vec_simd-xor}

range-length :
    (bytes : List ℕ) (from to : ℕ) (s : List ℕ)
    → range bytes from to ≡ some s
    → length s ≡ to - from
range-length bytes from to s e =
    ground (arith, length-take (to - from) (drop from bytes), length-drop from bytes)

module _ (current previous : List ℕ) (stride : ℕ) where
  simd_rows-scalar :
      (rect : DamageRect) (n row : ℕ) (output : List ℕ)
      → simd_rows current previous stride rect n row output
        ≡ scalar_rows current previous stride rect n row output
  unfolding simd_rows scalar_rows
  simd_rows-scalar rect zero row output = refl
  simd_rows-scalar rect (suc n) row output =
      let from = row_start rect stride row in
      let to = row_end rect stride row in
      elim (Option-cases (range current from to)) [
        | inl e ↦ rw e
        | inr (cur, e) ↦ elim (Option-cases (range previous from to)) [
          | inl d ↦ rw (e, d)
          | inr (prev, d) ↦
              rw
                (
                  e,
                  d,
                  xor_into_vec_simd-xor cur prev output (
                      range-length current from to cur e
                      ∙ sym (range-length previous from to prev d)),
                )
                (simd_rows-scalar rect n (row + 1) (output ++ xor_bytes cur prev))
        ]
      ]

  simd_regions-scalar :
      (regions : List DamageRect) (output : List ℕ)
      → simd_regions current previous stride regions output
        ≡ scalar_regions current previous stride regions output
  unfolding simd_regions scalar_regions
  simd_regions-scalar [] output = refl
  simd_regions-scalar (rect ∷ regions) output =
      rw (simd_rows-scalar rect rect.height 0 output)
        (elim (Option-cases (scalar_rows current previous stride rect rect.height 0 output)) [
          | inl e ↦ rw e
          | inr (output', e) ↦ rw e (simd_regions-scalar regions output')
        ])

  -- The vectorised encoder writes what the plain one writes and panics where that panics, on every
  -- pair of frames and all regions.
  pub delta_encode_simd-scalar :
      (regions : List DamageRect) (output : List ℕ)
      → delta_encode_simd current previous stride regions output
        ≡ delta_encode_scalar current previous stride regions output
  unfolding delta_encode_simd delta_encode_scalar
  delta_encode_simd-scalar regions output = rw (simd_regions-scalar regions output)

  -- The delta of one row, of `n` rows from `row` on, and of all regions.
  abbrev pub row_delta : DamageRect → ℕ → List ℕ
  row_delta rect row =
      xor_bytes (take (rect.width * 4) (drop (row_start rect stride row) current))
        (take (rect.width * 4) (drop (row_start rect stride row) previous))

  unfoldable pub rows_delta : DamageRect → ℕ → ℕ → List ℕ
  rows_delta rect zero row = []
  rows_delta rect (suc n) row = row_delta rect row ++ rows_delta rect n (row + 1)

  unfoldable pub regions_delta : List DamageRect → List ℕ
  regions_delta [] = []
  regions_delta (rect ∷ regions) = rows_delta rect rect.height 0 ++ regions_delta regions

-- The rows of a rectangle end inside a frame of `len` bytes; so for all regions.
abbrev pub RowsFit : ℕ → ℕ → DamageRect → ℕ → ℕ → Type 0
RowsFit stride len rect zero row = Unit {0}
RowsFit stride len rect (suc n) row =
    (row_end rect stride row ≤ len) × RowsFit stride len rect n (row + 1)

abbrev pub RegionsFit : ℕ → ℕ → List DamageRect → Type 0
RegionsFit stride len [] = Unit {0}
RegionsFit stride len (rect ∷ regions) =
    RowsFit stride len rect rect.height 0 × RegionsFit stride len regions

module _ (current previous : List ℕ) (stride : ℕ) (same : length current ≡ length previous) where
  pub length-row_delta :
      (rect : DamageRect) (row : ℕ)
      → row_end rect stride row ≤ length previous
      → length (row_delta current previous stride rect row) ≡ rect.width * 4
  length-row_delta rect row h =
      let s = row_start rect stride row in
      let a : length (take (rect.width * 4) (drop s current)) ≡ rect.width * 4 =
        omega (arith, length-take (rect.width * 4) (drop s current), length-drop s current) in
      let b : length (take (rect.width * 4) (drop s previous)) ≡ rect.width * 4 =
        omega (arith, length-take (rect.width * 4) (drop s previous), length-drop s previous) in
      length-xor_bytes _ _ (a ∙ sym b) ∙ a

  pub length-rows_delta :
      (rect : DamageRect) (n row : ℕ)
      → RowsFit stride (length previous) rect n row
      → length (rows_delta current previous stride rect n row) ≡ n * (rect.width * 4)
  unfolding rows_delta
  length-rows_delta rect zero row fit = omega arith
  length-rows_delta rect (suc n) row fit = omega (
    arith,
    length-append (row_delta current previous stride rect row)
        (rows_delta current previous stride rect n (row + 1)),
    length-row_delta rect row fit.0,
    length-rows_delta rect n (row + 1) fit.1,
  )

  scalar_rows-delta :
      (rect : DamageRect) (n row : ℕ) (output : List ℕ)
      → RowsFit stride (length previous) rect n row
      → scalar_rows current previous stride rect n row output
        ≡ some (output ++ rows_delta current previous stride rect n row)
  unfolding scalar_rows rows_delta
  scalar_rows-delta rect zero row output fit = rw (append-nil output)
  scalar_rows-delta rect (suc n) row output fit =
      let from = row_start rect stride row in
      let to = row_end rect stride row in
      let width : to - from ≡ rect.width * 4 = omega arith in
      let rc = range-some current from to (omega arith) (omega (arith, fit.0)) in
      let rp = range-some previous from to (omega arith) (omega (arith, fit.0)) in
      rw (rc, rp, width)
        (scalar_rows-delta rect n (row + 1) (output ++ row_delta current previous stride rect row)
            fit.1
          ∙ ap some (append_assoc output _ _))

  scalar_regions-delta :
      (regions : List DamageRect) (output : List ℕ)
      → RegionsFit stride (length previous) regions
      → scalar_regions current previous stride regions output
        ≡ some (output ++ regions_delta current previous stride regions)
  unfolding scalar_regions regions_delta
  scalar_regions-delta [] output fit = rw (append-nil output)
  scalar_regions-delta (rect ∷ regions) output fit =
      rw (scalar_rows-delta rect rect.height 0 output fit.0)
        (scalar_regions-delta regions _ fit.1 ∙ ap some (append_assoc output _ _))

  -- On regions inside the frame the encoder does not panic.
  pub delta_encode-delta :
      (regions : List DamageRect) (output : List ℕ)
      → RegionsFit stride (length previous) regions
      → let delta = regions_delta current previous stride regions in
        delta_encode_simd current previous stride regions output
        ≡ some (output ++ delta, length delta)
  unfolding delta_encode_scalar
  delta_encode-delta regions output fit =
      let delta = regions_delta current previous stride regions in
      let count : length (output ++ delta) - length output ≡ length delta =
        omega (arith, length-append output delta) in
      delta_encode_simd-scalar current previous stride regions output
      ∙ rw (scalar_regions-delta regions output fit, count)
