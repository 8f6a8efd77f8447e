-- ===== src/Capture/Frame/Mirrored.antt =====
-- The mirroring in place, against the pixels of each row in the opposite order.
use native.Mathlib.Nat.{mul-div_cancel}
use remote_way.Prelude.{
  ℕ, zero, suc, ◌+◌, ◌-◌, ◌*◌, ◌/◌, ◌≤◌, ◌<◌, false, List, [], ◌∷◌, ◌++◌, map, some, length, ◌==◌,
  ◌≡◌, refl, ◌∙◌, sym, ap, ap₂, subst, arith, take-length, drop-length, All, lt→ltb, le→not-ltb,
}
use remote_way.Capture.Frame.{swap_blocks, flip_loop, mirror_row, mirror_chunks, mirror_rows}
use remote_way.Capture.Frame.Flipped.{concat, reversed, Rows, length-concat, whole}

-- Counting the exchanges is as good as comparing the ends.
mirror_row-flip_loop :
    (n fuel pixels i : ℕ) (row : List ℕ)
    → i + i + (n + n) ≤ pixels
    → pixels ≤ i + i + (n + n) + 1
    → n ≤ fuel
    → mirror_row n pixels i row ≡ flip_loop fuel 4 i (pixels - 1 - i) row
unfolding mirror_row flip_loop
mirror_row-flip_loop zero zero pixels i row least most enough = refl
mirror_row-flip_loop zero (suc fuel) pixels i row least most enough =
    rw (le→not-ltb i (pixels - 1 - i) (omega (arith, most))) refl
mirror_row-flip_loop (suc n) zero pixels i row least most enough = absurd (omega (arith, enough))
mirror_row-flip_loop (suc n) (suc fuel) pixels i row least most enough =
    let next : pixels - 1 - (i + 1) ≡ pixels - 1 - i - 1 = omega arith in
    let rec =
      mirror_row-flip_loop n fuel pixels (i + 1) (swap_blocks 4 i (pixels - 1 - i) row)
        (omega (arith, least)) (omega (arith, most)) (omega (arith, enough)) in
    rw (lt→ltb i (pixels - 1 - i) (omega (arith, least))) (
      subst
        (λ bottom.
          mirror_row n pixels (i + 1) (swap_blocks 4 i (pixels - 1 - i) row)
          ≡ flip_loop fuel 4 (i + 1) bottom (swap_blocks 4 i (pixels - 1 - i) row))
        next rec)

-- A row of whole pixels.
mirror_row-reversed :
    (pixels : List (List ℕ))
    → Rows 4 pixels
    → mirror_row (length pixels / 2) (length pixels) 0 (concat pixels) ≡ concat (reversed pixels)
mirror_row-reversed pixels h =
    mirror_row-flip_loop (length pixels / 2) (length pixels - 1) (length pixels) 0 (concat pixels)
      (omega arith) (omega arith) (omega arith)
    ∙ (ap (λ bottom. flip_loop (length pixels - 1) 4 0 bottom (concat pixels)) (omega arith)
        ∙ whole 4 pixels h)

-- A picture of rows of `w` pixels.
abbrev pub Picture : ℕ → List (List (List ℕ)) → Type 0
Picture w = All (λ row. (length row ≡ w) × Rows 4 row)

mirror_chunks-reversed :
    (w : ℕ) (rows : List (List (List ℕ)))
    → Picture w rows
    → mirror_chunks (length rows) (w * 4) (concat (map concat rows))
      ≡ concat (map (λ row. concat (reversed row)) rows)
unfolding mirror_chunks
mirror_chunks-reversed w [] h = refl
mirror_chunks-reversed w (row ∷ rows) ((long, pixels), h) =
    let size : w * 4 ≡ length (concat row) =
      sym (length-concat 4 row pixels ∙ ap (λ n. n * 4) long) in
    let wide : w * 4 / 4 ≡ length row = omega (arith, long) in
    rw
      (
        take-length (concat row) (concat (map concat rows)) (w * 4) size,
        drop-length (concat row) (concat (map concat rows)) (w * 4) size,
        wide,
      )
      (ap₂ (λ a b. a ++ b) (mirror_row-reversed row pixels) (mirror_chunks-reversed w rows h))

length-picture :
    (w : ℕ) (rows : List (List (List ℕ)))
    → Picture w rows
    → Rows (w * 4) (map concat rows) × (length (map concat rows) ≡ length rows)
length-picture w [] h = (tt, refl)
length-picture w (row ∷ rows) ((long, pixels), h) =
    let (all, count) = length-picture w rows h in
    ((length-concat 4 row pixels ∙ ap (λ n. n * 4) long, all), omega (arith, count))

-- A picture of rows of whole pixels is mirrored to the same rows, each with its pixels in the opposite
-- order.
pub mirror_rows-reversed :
    (w : ℕ) (rows : List (List (List ℕ)))
    → 0 < w
    → Picture w rows
    → mirror_rows (concat (map concat rows)) (w * 4)
      ≡ some (concat (map (λ row. concat (reversed row)) rows))
unfolding mirror_rows
mirror_rows-reversed w rows positive h =
    let (all, same) = length-picture w rows h in
    let count : length (concat (map concat rows)) / (w * 4) ≡ length rows =
      ap (λ n. n / (w * 4)) (length-concat (w * 4) (map concat rows) all)
      ∙ (mul-div_cancel (length (map concat rows)) (omega (arith, positive)) ∙ same) in
    let some_stride : (w * 4 == 0) ≡ false = ground (arith, positive) in
    rw (some_stride, count) (ap some (mirror_chunks-reversed w rows h))
