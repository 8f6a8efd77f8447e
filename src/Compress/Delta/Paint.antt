-- ===== src/Compress/Delta/Paint.antt =====
-- Decoding seen as pasting: each row of the current frame is laid over the previous frame.
use remote_way.Prelude.{
  ℕ, zero, suc, ◌+◌, ◌*◌, ◌≤◌, Bool, true, false, ◌&&◌, ◌||◌, List, [], ◌∷◌, ◌++◌, length, take,
  drop, get_elem?, leb, ltb, if◌then◌else◌, ◌≡◌, inl, inr, refl, ◌∙◌, sym, arith, length-take,
  length-drop, length-append, Bool-cases,
}
use remote_way.Prelude.{list_ext}
use remote_way.Compress.Delta.{DamageRect, row_start, row_end}
use remote_way.Compress.Delta.Encode.{RowsFit, RegionsFit}

-- `w` bytes of `current` from `s` on, laid over `out`.
abbrev pub paste : List ℕ → ℕ → ℕ → List ℕ → List ℕ
paste current s w out = take s out ++ (take w (drop s current) ++ drop (s + w) out)

module _ (current : List ℕ) (stride : ℕ) where
  unfoldable pub paint_rows : DamageRect → ℕ → ℕ → List ℕ → List ℕ
  paint_rows rect zero row out = out
  paint_rows rect (suc n) row out =
      paint_rows rect n (row + 1) (paste current (row_start rect stride row) (rect.width * 4) out)

  unfoldable pub paint : List DamageRect → List ℕ → List ℕ
  paint [] out = out
  paint (rect ∷ regions) out = paint regions (paint_rows rect rect.height 0 out)

-- Whether a byte of the frame lies in one of the rows, or in one of the regions.
unfoldable pub in_rows : ℕ → DamageRect → ℕ → ℕ → ℕ → Bool
in_rows stride rect zero row k = false
in_rows stride rect (suc n) row k =
    leb (row_start rect stride row) k && ltb k (row_end rect stride row)
    || in_rows stride rect n (row + 1) k

unfoldable pub covered : ℕ → List DamageRect → ℕ → Bool
covered stride [] k = false
covered stride (rect ∷ regions) k = in_rows stride rect rect.height 0 k || covered stride regions k

pub length-paste :
    (current out : List ℕ) (s w : ℕ)
    → length current ≡ length out
    → s + w ≤ length out
    → length (paste current s w out) ≡ length out
length-paste current out s w e h = omega (
  arith,
  length-append (take s out) (take w (drop s current) ++ drop (s + w) out),
  length-append (take w (drop s current)) (drop (s + w) out),
  length-take s out,
  length-take w (drop s current),
  length-drop s current,
  length-drop (s + w) out,
)

get_elem?-front :
    (w k : ℕ) (current out : List ℕ)
    → w ≤ length current
    → w ≤ length out
    → get_elem? (take w current ++ drop w out) k
      ≡ (if ltb k w then get_elem? current k else get_elem? out k)
get_elem?-front zero k current out h g = let far : ltb k 0 ≡ false = ground arith in rw far
get_elem?-front (suc w) k [] out h g = absurd (omega arith)
get_elem?-front (suc w) k (x ∷ current) [] h g = absurd (omega arith)
get_elem?-front (suc w) zero (x ∷ current) (y ∷ out) h g =
    let near : ltb 0 (suc w) ≡ true = ground arith in rw near
get_elem?-front (suc w) (suc k) (x ∷ current) (y ∷ out) h g =
    let same : ltb (suc k) (suc w) ≡ ltb k w = ground arith in
    rw same (get_elem?-front w k current out (omega arith) (omega arith))

get_elem?-paste :
    (s w k : ℕ) (current out : List ℕ)
    → s + w ≤ length current
    → s + w ≤ length out
    → get_elem? (paste current s w out) k
      ≡ (if leb s k && ltb k (s + w) then get_elem? current k else get_elem? out k)
get_elem?-paste zero w k current out h g =
    let same : 0 + w ≡ w = omega arith in
    let near : leb 0 k ≡ true = ground arith in
    rw (same, near) (get_elem?-front w k current out (omega arith) (omega arith))
get_elem?-paste (suc s) w k [] out h g = absurd (omega arith)
get_elem?-paste (suc s) w k (x ∷ current) [] h g = absurd (omega arith)
get_elem?-paste (suc s) w zero (x ∷ current) (y ∷ out) h g =
    let far : leb (suc s) 0 ≡ false = ground arith in rw far
get_elem?-paste (suc s) w (suc k) (x ∷ current) (y ∷ out) h g =
    let shift : suc s + w ≡ suc (s + w) = omega arith in
    let low : leb (suc s) (suc k) ≡ leb s k = ground arith in
    let high : ltb (suc k) (suc (s + w)) ≡ ltb k (s + w) = ground arith in
    rw (shift, low, high) (get_elem?-paste s w k current out (omega arith) (omega arith))

if-or {ℓ} :
    {A : Type ℓ} (r h : Bool) (c o : A)
    → (if r then c else if h then c else o) ≡ (if h || r then c else o)
if-or true true c o = refl
if-or true false c o = refl
if-or false true c o = refl
if-or false false c o = refl

module _ (current : List ℕ) (stride : ℕ) where
  pub length-paint_rows :
      (rect : DamageRect) (n row : ℕ) (out : List ℕ)
      → length current ≡ length out
      → RowsFit stride (length out) rect n row
      → length (paint_rows current stride rect n row out) ≡ length out
  unfolding paint_rows
  length-paint_rows rect zero row out e fit = refl
  length-paint_rows rect (suc n) row out e fit =
      let one =
        length-paste current out (row_start rect stride row) (rect.width * 4) e
          (omega (arith, fit.0)) in
      length-paint_rows rect n (row + 1) _ (e ∙ sym one) (rw one fit.1) ∙ one

  get_elem?-paint_rows :
      (rect : DamageRect) (n row : ℕ) (out : List ℕ) (k : ℕ)
      → length current ≡ length out
      → RowsFit stride (length out) rect n row
      → get_elem? (paint_rows current stride rect n row out) k
        ≡ (if in_rows stride rect n row k then get_elem? current k else get_elem? out k)
  unfolding paint_rows in_rows
  get_elem?-paint_rows rect zero row out k e fit = refl
  get_elem?-paint_rows rect (suc n) row out k e fit =
      let s = row_start rect stride row in
      let w = rect.width * 4 in
      let one = length-paste current out s w e (omega (arith, fit.0)) in
      let rest =
        get_elem?-paint_rows rect n (row + 1) (paste current s w out) k (e ∙ sym one)
          (rw one fit.1) in
      let here =
        get_elem?-paste s w k current out (omega (arith, fit.0, e)) (omega (arith, fit.0)) in
      let end : s + w ≡ row_end rect stride row = omega arith in
      rest ∙ rw (here, end) (if-or (in_rows stride rect n (row + 1) k) _ _ _)

  pub length-paint :
      (regions : List DamageRect) (out : List ℕ)
      → length current ≡ length out
      → RegionsFit stride (length out) regions
      → length (paint current stride regions out) ≡ length out
  unfolding paint
  length-paint [] out e fit = refl
  length-paint (rect ∷ regions) out e fit =
      let one = length-paint_rows rect rect.height 0 out e fit.0 in
      length-paint regions _ (e ∙ sym one) (rw one fit.1) ∙ one

  -- Painting the current frame over another of its length, region by region, takes the bytes of the
  -- regions from the current frame and leaves all others, also where regions overlap.
  pub get_elem?-paint :
      (regions : List DamageRect) (out : List ℕ) (k : ℕ)
      → length current ≡ length out
      → RegionsFit stride (length out) regions
      → get_elem? (paint current stride regions out) k
        ≡ (if covered stride regions k then get_elem? current k else get_elem? out k)
  unfolding paint covered
  get_elem?-paint [] out k e fit = refl
  get_elem?-paint (rect ∷ regions) out k e fit =
      let mid = paint_rows current stride rect rect.height 0 out in
      let one = length-paint_rows rect rect.height 0 out e fit.0 in
      get_elem?-paint regions mid k (e ∙ sym one) (rw one fit.1)
      ∙ rw (get_elem?-paint_rows rect rect.height 0 out k e fit.0)
          (if-or (covered stride regions k) _ _ _)

  -- Where the frames agree outside the regions, the current frame is restored.
  pub paint_restores :
      (regions : List DamageRect) (out : List ℕ)
      → length current ≡ length out
      → RegionsFit stride (length out) regions
      → ((k : ℕ) → covered stride regions k ≡ false → get_elem? current k ≡ get_elem? out k)
      → paint current stride regions out ≡ current
  paint_restores regions out e fit agree = list_ext _ _ (λ k.
      elim (Bool-cases (covered stride regions k)) [
        | inl c ↦ get_elem?-paint regions out k e fit ∙ rw c
        | inr c ↦ get_elem?-paint regions out k e fit ∙ rw c (sym (agree k c))
      ])
