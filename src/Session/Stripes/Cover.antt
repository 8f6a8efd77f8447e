-- ===== src/Session/Stripes/Cover.antt =====
-- The stripes lie one below the other and make up the whole frame.
use remote_way.Prelude.{
  ℕ, zero, suc, ◌+◌, ◌*◌, ◌/◌, ◌%◌, ◌≤◌, ◌<◌, min, Bool, true, false, ◌||◌, List, [], ◌∷◌, length,
  leb, ltb, ◌==◌, ◌≡◌, inl, inr, refl, sym, ap, arith, Bool-cases, ==_iff, ltb→lt, not-ltb→le,
}
use remote_way.Compress.Delta.{DamageRect, row_start, row_end}
use remote_way.Compress.Delta.Encode.{RowsFit, RegionsFit}
use remote_way.Compress.Delta.Paint.{in_rows, covered}
use native.Mathlib.Nat.{mod-lt, div-add-mod, mul-le-mul_right}
use native.Mathlib.Decide.{dec_lt}
use remote_way.Session.Stripes.{stripe_loop, stripe_count, stripe_full_frame}

-- Rectangles of full width, the first at row `y`, each below the one before, down to row `end`.
abbrev pub Stacked : ℕ → ℕ → ℕ → List DamageRect → Type 0
Stacked width y end [] = y ≡ end
Stacked width y end (r ∷ rs) =
    (r.x ≡ 0) × (r.y ≡ y) × (r.width ≡ width) × Stacked width (y + r.height) end rs

or_true : (b : Bool) → b || true ≡ true
or_true true = refl
or_true false = refl

stripe_loop-Stacked :
    (width base rem n i y end : ℕ)
    → end + (i * base + min i rem) ≡ y + ((i + n) * base + min (i + n) rem)
    → Stacked width y end (stripe_loop width base rem n i y)
unfolding stripe_loop
stripe_loop-Stacked width base rem zero i y end e =
    let same : i + 0 ≡ i = omega arith in omega (arith, ap (λ t. t * base + min t rem) same)
stripe_loop-Stacked width base rem (suc n) i y end e = elim (Bool-cases (ltb i rem)) [
  | inl more ↦ rw more (
    refl,
    refl,
    refl,
    stripe_loop-Stacked width base rem n (i + 1) (y + (base + 1)) end
        (omega (arith, ltb→lt _ _ more)),
  )
  | inr less ↦ rw less (
    refl,
    refl,
    refl,
    stripe_loop-Stacked width base rem n (i + 1) (y + (base + 0)) end
        (omega (arith, not-ltb→le _ _ less)),
  )
]

length-stripe_loop : (width base rem n i y : ℕ) → length (stripe_loop width base rem n i y) ≡ n
unfolding stripe_loop
length-stripe_loop width base rem zero i y = refl
length-stripe_loop width base rem (suc n) i y =
    ap suc (length-stripe_loop width base rem n (i + 1) _)

-- There are as many stripes as asked for, but no more than rows and at least one; each has the full
-- width, and they lie one below the other from row 0 to the last.
pub stripe_full_frame-Stacked :
    (width height n : ℕ)
    → (length (stripe_full_frame width height n) ≡ stripe_count height n)
      × Stacked width 0 height (stripe_full_frame width height n)
unfolding stripe_full_frame
stripe_full_frame-Stacked width height n = elim (Bool-cases (stripe_count height n == 1)) [
  | inl one ↦ rw one (sym ((==_iff _ 1).0 one), (refl, refl, refl, omega arith))
  | inr many ↦
      let count = stripe_count height n in
      rw many (
        length-stripe_loop width (height / count) (height % count) count 0 0,
        stripe_loop-Stacked width (height / count) (height % count) count 0 0 height (
            let rem : height % count < count = mod-lt height (omega arith) in
            omega (arith, div-add-mod height count)),
      )
]

Stacked-le : (width y end : ℕ) (rs : List DamageRect) → Stacked width y end rs → y ≤ end
Stacked-le width y end [] s = omega arith
Stacked-le width y end (r ∷ rs) s = omega (arith, Stacked-le width (y + r.height) end rs s.3)

rows_inside :
    (width end n row : ℕ) (r : DamageRect)
    → r.x ≡ 0
    → r.width ≡ width
    → r.y + row + n ≤ end
    → RowsFit (width * 4) (end * (width * 4)) r n row
rows_inside width end zero row r ex ew h = tt
rows_inside width end (suc n) row r ex ew h =
    let lines : (r.y + row + 1) * (width * 4) ≤ end * (width * 4) =
      mul-le-mul_right (width * 4) (omega arith) in
    (omega (arith, lines, ew, ex), rows_inside width end n (row + 1) r ex ew (omega arith))

-- Stacked rectangles lie inside a frame whose rows are as wide as they are.
pub Stacked-RegionsFit :
    (width y end : ℕ) (rs : List DamageRect)
    → Stacked width y end rs
    → RegionsFit (width * 4) (end * (width * 4)) rs
Stacked-RegionsFit width y end [] s = tt
Stacked-RegionsFit width y end (r ∷ rs) s = (
  rows_inside width end r.height 0 r s.0 s.2
      (omega (arith, Stacked-le width (y + r.height) end rs s.3, s.1)),
  Stacked-RegionsFit width (y + r.height) end rs s.3,
)

rows_cover :
    (width n row k : ℕ) (r : DamageRect)
    → r.x ≡ 0
    → r.width ≡ width
    → (r.y + row) * (width * 4) ≤ k
    → k < (r.y + row + n) * (width * 4)
    → in_rows (width * 4) r n row k ≡ true
unfolding in_rows
rows_cover width zero row k r ex ew lo hi =
    let same : r.y + row + 0 ≡ r.y + row = omega arith in
    absurd (omega (arith, ap (λ t. t * (width * 4)) same))
rows_cover width (suc n) row k r ex ew lo hi =
    let from : leb (row_start r (width * 4) row) k ≡ true = ground (arith, lo) in
    elim (Bool-cases (ltb k (row_end r (width * 4) row))) [
      | inl here ↦ rw (from, here)
      | inr below ↦
          let past = not-ltb→le _ _ below in
          let next : (r.y + (row + 1)) * (width * 4) ≤ k = omega (arith, past) in
          let same : r.y + (row + 1) + n ≡ r.y + row + suc n = omega arith in
          rw (from, below) (rows_cover width n (row + 1) k r ex ew next (rw same hi))
    ]

covered-Stacked :
    (width y end k : ℕ) (rs : List DamageRect)
    → Stacked width y end rs
    → y * (width * 4) ≤ k
    → k < end * (width * 4)
    → covered (width * 4) rs k ≡ true
unfolding covered
covered-Stacked width y end k [] s lo hi = absurd (omega (arith, ap (λ t. t * (width * 4)) s))
covered-Stacked width y end k (r ∷ rs) s lo hi = elim (dec_lt k ((y + r.height) * (width * 4))) [
  | yes here ↦
      let top : (r.y + 0) * (width * 4) ≤ k =
        rw s.1 (let same : y + 0 ≡ y = omega arith in rw same lo) in
      let bottom : k < (r.y + 0 + r.height) * (width * 4) =
        rw s.1 (let same : y + 0 + r.height ≡ y + r.height = omega arith in rw same here) in
      rw (rows_cover width r.height 0 k r s.0 s.2 top bottom)
  | no below ↦
      let rest = covered-Stacked width (y + r.height) end k rs s.3 (omega arith) hi in
      rw rest (or_true _)
]

-- The stripes of a frame whose rows have no padding cover each of its bytes.
pub covered-stripe_full_frame :
    (width height n k : ℕ)
    → k < height * (width * 4)
    → covered (width * 4) (stripe_full_frame width height n) k ≡ true
covered-stripe_full_frame width height n k h =
    covered-Stacked width 0 height k _ (stripe_full_frame-Stacked width height n).1 (omega arith) h
