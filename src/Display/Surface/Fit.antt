-- ===== src/Display/Surface/Fit.antt =====
-- The size that a window's viewport shows a picture at.
use native.Mathlib.Nat.{div-le_of_le-mul, div-mul-le_self, lt-div-mul-add, add-mul, mul_comm}
use remote_way.Prelude.{
  ℕ, ◌+◌, ◌*◌, ◌/◌, ◌≤◌, ◌<◌, max, false, ◌||◌, leb, ◌==◌, ◌≡◌, ◌⊎◌, inl, inr, refl, arith, subst,
  leb→le, not-leb→lt, Bool-cases,
}
use remote_way.Display.Surface.{fit_preserve_aspect}

-- A picture of `src_w` by `src_h` shown at `w` by `h` in a window: it fills one dimension, stays within
-- the other, and there differs from the exact proportion by less than a pixel unless it is one
-- pixel.
abbrev pub Fitted : ℕ → ℕ → ℕ → ℕ → ℕ × ℕ → Type 0
Fitted src_w src_h dst_w dst_h (w, h) =
    (0 < w)
    × (0 < h)
    × (w ≤ dst_w)
    × (h ≤ dst_h)
    × (((h ≡ dst_h) × ((w ≡ 1) ⊎ ((w * src_h ≤ dst_h * src_w) × (dst_h * src_w < (w + 1) * src_h))))
        ⊎ ((w ≡ dst_w)
            × ((h ≡ 1) ⊎ ((h * src_w ≤ dst_w * src_h) × (dst_w * src_h < (h + 1) * src_w)))))

-- A quotient of at most the other dimension, at least one.
quotient :
    (n d dst : ℕ)
    → 0 < d
    → 0 < dst
    → n ≤ dst * d
    → let q = max (n / d) 1 in (0 < q) × (q ≤ dst) × ((q ≡ 1) ⊎ ((q * d ≤ n) × (n < (q + 1) * d)))
quotient n d dst d0 dst0 h =
    let below : n / d ≤ dst = div-le_of_le-mul d (subst (λ m. n ≤ m) (mul_comm dst d) h) in
    elim (Bool-cases (n / d == 0)) [
      | inl none_whole ↦ (omega arith, omega (arith, dst0, below), inl (ground (arith, none_whole)))
      | inr some_whole ↦
          let same : max (n / d) 1 ≡ n / d = ground (arith, some_whole) in
          rw same (
            ground (arith, some_whole),
            below,
            inr (
              div-mul-le_self n d,
              rw (add-mul (n / d) 1 d) (omega (arith, lt-div-mul-add {a = n} d0)),
            ),
          )
    ]

-- The size that a picture is shown at in a window, both of at least one pixel a side.
pub fit_preserve_aspect-Fitted :
    (src_w src_h dst_w dst_h : ℕ)
    → 0 < src_w
    → 0 < src_h
    → 0 < dst_w
    → 0 < dst_h
    → Fitted src_w src_h dst_w dst_h (fit_preserve_aspect src_w src_h dst_w dst_h)
unfolding fit_preserve_aspect
fit_preserve_aspect-Fitted src_w src_h dst_w dst_h sw sh dw dh =
    let positive : (src_w == 0) || (src_h == 0) ≡ false = ground (arith, sw, sh) in
    rw positive (elim (Bool-cases (leb (src_w * dst_h) (dst_w * src_h))) [
      | inl narrow ↦
          let fits_width : dst_h * src_w ≤ dst_w * src_h =
            subst (λ m. m ≤ dst_w * src_h) (mul_comm src_w dst_h) (leb→le _ _ narrow) in
          let (least, most, near) = quotient (dst_h * src_w) src_h dst_w sh dw fits_width in
          rw narrow (least, dh, most, omega arith, inl (refl, near))
      | inr wide ↦
          let fits_height : dst_w * src_h ≤ dst_h * src_w =
            subst (λ m. dst_w * src_h ≤ m) (mul_comm src_w dst_h)
              (omega (arith, not-leb→lt _ _ wide)) in
          let (least, most, near) = quotient (dst_w * src_h) src_w dst_h sw dh fits_height in
          rw wide (dw, least, omega arith, most, inr (refl, near))
    ])
